-- ===== src/RingBuffer/Defs.antt =====
-- The two functions of ring_buffer.c.
use batman_adv_userspace.Base.{
  ℕ, zero, suc, ◌+◌, ◌/◌, ◌%◌, ◌^◌, List, [], ◌∷◌, Option, none, some, ◌==◌, if◌then◌else◌, ◌>>=◌,
  get_elem?, set,
}

-- TQ_GLOBAL_WINDOW_SIZE
abbrev pub tq_global_window_size : ℕ
tq_global_window_size = 10

unfoldable pub ring_buffer_set : List ℕ → ℕ → ℕ → Option (List ℕ × ℕ)
ring_buffer_set lq_recv lq_index value = elim (get_elem? lq_recv lq_index) [
  | none ↦ none
  | some _ ↦ some (set lq_recv lq_index value, (lq_index + 1) % tq_global_window_size)
]

-- The loop with `rounds` rounds left; `count` and `sum` are uint16_t.
unfoldable pub avg_loop : ℕ → List ℕ → ℕ → ℕ → Option (ℕ × ℕ)
avg_loop zero ptr count sum = some (count, sum)
avg_loop (suc rounds) [] count sum = none
avg_loop (suc rounds) (v ∷ ptr) count sum =
    avg_loop rounds ptr (if v == 0 then count else (count + 1) % 2 ^ 16)
      (if v == 0 then sum else (sum + v) % 2 ^ 16)

unfoldable pub ring_buffer_avg : List ℕ → Option ℕ
unfolding avg_loop
ring_buffer_avg lq_recv = do
  (count, sum) ← avg_loop tq_global_window_size lq_recv 0 0
  some (if count == 0 then 0 else (sum / count) % 2 ^ 8)
