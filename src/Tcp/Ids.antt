-- ===== src/Tcp/Ids.antt =====
-- p2p-frame/src/networks/tcp/tunnel.rs: the numbers that an end gives to its connections, channels and
-- requests. The two ends of a tunnel number by themselves, in halves that do not meet.
use bucky_p2p.Base.{
  ℕ, zero, suc, ◌+◌, ◌%◌, ◌^◌, ◌<◌, ◌≤◌, ◌≡◌, ◌≢◌, Bool, false, Option, none, some, arith, refl,
  inl, inr, wrap32, Bool-cases, ◌==◌, if◌then◌else◌,
}
use bucky_p2p.Types.{fetch_add}

pub data TunnelForm : Type 0 where
  active passive proxy : TunnelForm

abbrev pub tcp_local_id_high_bit : ℕ
tcp_local_id_high_bit = 2_147_483_648

abbrev pub with_form : TunnelForm → ℕ → ℕ
with_form active seq = seq
with_form proxy seq = seq
with_form passive seq = tcp_local_id_high_bit + seq

-- The loop over draws of the counter, at most `fuel` of them: the new counter and the number. The
-- complement of the high bit is the remainder by it.
unfoldable pub next_local_id_value : ℕ → TunnelForm → ℕ → Option (ℕ × ℕ)
unfolding fetch_add
next_local_id_value zero form counter = none
next_local_id_value (suc fuel) form counter =
    let (counter', drawn) = fetch_add counter in
    let seq = drawn % tcp_local_id_high_bit in
    let rest = next_local_id_value fuel form counter' in
    if seq == 0 then rest else some (counter', with_form form seq)

second_draw :
    (counter : ℕ)
    → counter < 2 ^ 32
    → counter % tcp_local_id_high_bit ≡ 0
    → wrap32 (counter + 1) % tcp_local_id_high_bit ≢ 0
second_draw counter h z = ground arith

-- The loop ends, with its second draw at the latest: more draws than two change nothing.
pub next_local_id_value-terminates :
    (fuel : ℕ) (form : TunnelForm) (counter : ℕ)
    → 2 ≤ fuel
    → counter < 2 ^ 32
    → (next_local_id_value fuel form counter ≡ next_local_id_value 2 form counter)
      × (next_local_id_value fuel form counter ≢ none)
unfolding next_local_id_value fetch_add
next_local_id_value-terminates zero form counter f h = absurd (omega arith)
next_local_id_value-terminates (suc zero) form counter f h = absurd (omega arith)
next_local_id_value-terminates (suc (suc fuel)) form counter f h =
    let second = second_draw counter h in (ground arith, ground arith)

abbrev pub IsNumber : TunnelForm → ℕ → Type 0
IsNumber active n = (0 < n) × (n < tcp_local_id_high_bit)
IsNumber proxy n = (0 < n) × (n < tcp_local_id_high_bit)
IsNumber passive n = (tcp_local_id_high_bit < n) × (n < 2 ^ 32)

with_form-IsNumber :
    (form : TunnelForm) (seq : ℕ)
    → seq ≢ 0
    → seq < tcp_local_id_high_bit
    → IsNumber form (with_form form seq)
with_form-IsNumber active seq z h = (omega (arith, z), h)
with_form-IsNumber proxy seq z h = (omega (arith, z), h)
with_form-IsNumber passive seq z h = (omega (arith, z), omega arith)

drawn_number :
    (again : Bool) (rest : Option (ℕ × ℕ)) (counter number after n : ℕ)
    → again ≡ false
    → (if again then rest else some (counter, number)) ≡ some (after, n)
    → number ≡ n
drawn_number again rest counter number after n z h = ground arith

next_local_id_value-IsNumber :
    (fuel : ℕ) (form : TunnelForm) (counter after n : ℕ)
    → next_local_id_value fuel form counter ≡ some (after, n)
    → IsNumber form n
unfolding next_local_id_value fetch_add
next_local_id_value-IsNumber zero form counter after n h = absurd (cc h)
next_local_id_value-IsNumber (suc fuel) form counter after n h =
    elim (Bool-cases (counter % tcp_local_id_high_bit == 0)) [
      | inl z ↦ next_local_id_value-IsNumber fuel form (wrap32 (counter + 1)) after n (ground arith)
      | inr z ↦
          let number =
            with_form-IsNumber form (counter % tcp_local_id_high_bit) (ground arith)
              (omega arith) in
          rw (drawn_number _ _ _ _ after n z h) at number
    ]

-- What the passive end numbers and what the other end numbers never meet, wherever their counters are.
pub next_local_id_value-disjoint :
    (fuel fuel' counter counter' after after' n n' : ℕ) (form : TunnelForm)
    → form ≢ passive
    → next_local_id_value fuel passive counter ≡ some (after, n)
    → next_local_id_value fuel' form counter' ≡ some (after', n')
    → (n ≢ n') × (0 < n) × (0 < n') × (n < 2 ^ 32) × (n' < 2 ^ 32)
next_local_id_value-disjoint fuel fuel' counter counter' after after' n n' active other h h' =
    let low = next_local_id_value-IsNumber fuel' active counter' after' n' h' in
    let high = next_local_id_value-IsNumber fuel passive counter after n h in ground arith
next_local_id_value-disjoint fuel fuel' counter counter' after after' n n' proxy other h h' =
    let low = next_local_id_value-IsNumber fuel' proxy counter' after' n' h' in
    let high = next_local_id_value-IsNumber fuel passive counter after n h in ground arith
next_local_id_value-disjoint fuel fuel' counter counter' after after' n n' passive other h h' =
    absurd (other refl)
