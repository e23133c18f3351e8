-- ===== src/Buffer/Closing.antt =====
-- What `push` and the two ways of closing do to the state behind the mutex.
use conflux_fl.Base.{◌≡◌, ◌≢◌, ◌⊎◌, true, List, [], ◌∷◌, ◌++◌, ok, err, arith}
use conflux_fl.Proto.{ClientDelta}
use conflux_fl.Buffer.{
  RoundBuffer, open_with, closed, wrong_round, closed_error, push, append, notify_one,
}

-- `push` on every branch: a delta of another round is refused first, whether the buffer is open or
-- closed; a closed buffer refuses the rest; an open one appends the delta and leaves a permit. A
-- refusal changes nothing.
pub push_cases :
    (b : RoundBuffer) (d : ClientDelta)
    → ((d.round ≢ b.round) × (push b d ≡ (b, err (wrong_round b.round d.round))))
      ⊎ ((d.round ≡ b.round) × (b.state ≡ closed) × (push b d ≡ (b, err closed_error)))
      ⊎ ((ds : List ClientDelta) × (d.round ≡ b.round)
          × (b.state ≡ open_with ds)
          × (push b d ≡ (record b { state = open_with (ds ++ d ∷ []); permit = true }, ok tt)))
unfolding push append notify_one
push_cases b d = ground arith
