-- ===== src/PktIds/Return/Calls.antt =====
-- The helpers of `return_id` on a taken node.
use ruq.Base.{ℕ, ◌+◌, ◌^◌, ◌<◌, ◌≡◌, refl, ◌≢◌, true, false, some, List, arith, get_elem?, set, ok}
use ruq.PktIds.{
  Node, taken, maybe_extend_next_node, extend_next_at, maybe_extend_prev_node, extend_prev_at,
  relink, relink_at,
}

module _ (ranges : List Node) (i a b n : ℕ) (e : get_elem? ranges i ≡ some (taken a b n)) where
  pub extend_next_hit :
      (id : ℕ)
      → id + 1 ≡ a
      → maybe_extend_next_node i id ranges ≡ ok (true, set ranges i (taken id b n))
  unfolding maybe_extend_next_node extend_next_at
  extend_next_hit id h = rw e (ground arith)

  pub extend_next_miss :
      (id : ℕ) → id < a → id + 1 ≢ a → maybe_extend_next_node i id ranges ≡ ok (false, ranges)
  unfolding maybe_extend_next_node extend_next_at
  extend_next_miss id lt h = rw e (ground arith)

  pub extend_prev_hit :
      (id : ℕ)
      → b + 1 ≡ id
      → id < 2 ^ 16
      → maybe_extend_prev_node i id ranges ≡ ok (true, set ranges i (taken a id n))
  unfolding maybe_extend_prev_node extend_prev_at
  extend_prev_hit id h word = rw e (ground arith)

  pub extend_prev_miss :
      (id : ℕ)
      → b < id
      → id < 2 ^ 16
      → b + 1 ≢ id
      → maybe_extend_prev_node i id ranges ≡ ok (false, ranges)
  unfolding maybe_extend_prev_node extend_prev_at
  extend_prev_miss id lt word h = rw e (ground arith)

  pub relink_taken : (target : ℕ) → relink i target ranges ≡ ok (set ranges i (taken a b target))
  unfolding relink relink_at
  relink_taken target = rw e refl
