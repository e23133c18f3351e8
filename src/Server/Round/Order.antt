-- ===== src/Server/Round/Order.antt =====
-- crates/conflux-server/src/round.rs: the result of a round does not depend on the order in which
-- updates arrived.
use conflux_fl.Base.{
  ℕ, ◌≡◌, sym, ap, ap₂, ◌∙◌, Option, List, map, Perm, Nodup, length, text_le, text_le_total,
  text_le_trans, text_le_antisymm,
}
use conflux_fl.Base.Sort.{sort_by_perm-eq, length-sort_by}
use conflux_fl.Proto.{ClientDelta}
use conflux_fl.Buffer.{FlushResult}
use conflux_fl.Server.Round.{Opened, close_round, close_sorted, sorted_by_client}
use conflux_fl.Server.State.{Environment, AppState}

ClientDelta-IsSet : IsSet ClientDelta
ClientDelta-IsSet = hlevel

sorted_by_client_perm :
    (ds ds' : List ClientDelta)
    → Nodup (map (λ d. d.client_id) ds)
    → Perm ds ds'
    → sorted_by_client ds ≡ sorted_by_client ds'
sorted_by_client_perm ds ds' distinct p =
    sort_by_perm-eq (λ a b. text_le a.client_id b.client_id)
      (λ a b. text_le_total a.client_id b.client_id)
      (λ a b c h k. text_le_trans a.client_id b.client_id c.client_id h k) (λ d. d.client_id)
      (λ a b h k. text_le_antisymm a.client_id b.client_id h k) ClientDelta-IsSet ds ds' distinct p

length_perm :
    (ds ds' : List ClientDelta)
    → Nodup (map (λ d. d.client_id) ds)
    → Perm ds ds'
    → length ds ≡ length ds'
length_perm ds ds' distinct p =
    sym (length-sort_by (λ a b. text_le a.client_id b.client_id) ds)
    ∙ ap length (sorted_by_client_perm ds ds' distinct p)
    ∙ length-sort_by (λ a b. text_le a.client_id b.client_id) ds'

module _ (env : Environment) where
  -- A reproduction does not depend on packet arrival: when every client submitted once, the same
  -- updates flushed in another order leave the same state, checkpoint, accountant and history
  -- included, and the same outcome, an error included.
  pub close_round_perm :
      (now : Option ℕ) (o : Opened) (flush : FlushResult) (ds' : List ClientDelta)
      (s : AppState env)
      → Nodup (map (λ d. d.client_id) flush.deltas)
      → Perm flush.deltas ds'
      → close_round env now o flush s ≡ close_round env now o (record flush { deltas = ds' }) s
  unfolding close_round
  close_round_perm now o flush ds' s distinct p =
      ap₂ (λ n ds. close_sorted env now o flush.reason n ds s)
        (length_perm flush.deltas ds' distinct p)
        (sorted_by_client_perm flush.deltas ds' distinct p)
