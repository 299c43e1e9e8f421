-- ===== src/Wait.antt =====
-- The bounded polling loop of the program: a client operation waits in it for its reply (client.c),
-- check_nodealive for the answer to a ping (network_common.c).
use dsproj.Common.{
  ℕ, zero, suc, ◌+◌, ◌≤◌, ◌≡◌, inl, inr, Bool, true, false, ltb, if◌then◌else◌, arith, Bool-cases,
}

-- `while (flag != 1) { usleep(…); counter++; if (counter > 100) return … }` from a counter on: `true`
-- if the flag is seen. `flag c` is the value at the test with that counter; the fuel is
-- about twice what the test of the counter lets the loop use.
loop : ℕ → ℕ → (ℕ → Bool) → Bool
loop zero counter flag = false
loop (suc fuel) counter flag =
    let again = loop fuel (counter + 1) flag in
    if flag counter then true else if ltb 100 (counter + 1) then false else again

unfoldable pub wait_flag : (ℕ → Bool) → Bool
unfolding loop
wait_flag = loop 200 0

loop_sound :
    (fuel counter : ℕ) (flag : ℕ → Bool)
    → counter ≤ 100
    → loop fuel counter flag ≡ true
    → (c : ℕ) × (c ≤ 100) × (flag c ≡ true)
unfolding loop
loop_sound zero counter flag e h = cc
loop_sound (suc fuel) counter flag e h = elim (Bool-cases (flag counter)) [
  | inl seen ↦ (counter, omega arith, seen)
  | inr not_yet ↦ loop_sound fuel (counter + 1) flag (ground arith) (ground arith)
]

loop_complete :
    (fuel counter : ℕ) (flag : ℕ → Bool) (c : ℕ)
    → 101 ≤ counter + fuel
    → counter ≤ c
    → c ≤ 100
    → flag c ≡ true
    → loop fuel counter flag ≡ true
unfolding loop
loop_complete zero counter flag c e low high h = absurd (omega arith)
loop_complete (suc fuel) counter flag c e low high h = elim (Bool-cases (flag counter)) [
  | inl seen ↦ rw seen
  | inr not_yet ↦
      (let later : counter + 1 ≤ c = ground arith in
        ground (arith, loop_complete fuel (counter + 1) flag c))
]

-- The wait ends after at most 101 tests of the flag, and reports it as seen exactly if one of them,
-- at the counters 0 to 100, finds it set.
pub wait_flag_iff :
    (flag : ℕ → Bool)
    → (wait_flag flag ≡ true → (c : ℕ) × (c ≤ 100) × (flag c ≡ true))
      × ((c : ℕ) → c ≤ 100 → flag c ≡ true → wait_flag flag ≡ true)
unfolding wait_flag
wait_flag_iff flag = (
  loop_sound 200 0 flag (omega arith),
  λ c high h. loop_complete 200 0 flag c (omega arith) (omega arith) high h,
)
