-- ===== src/Net/Xtea/Words.antt =====
-- Decryption undoes encryption on one block, for every key.
use otx.Prelude.{ℕ, zero, suc, ◌+◌, ◌^◌, ◌<◌, ◌≡◌, refl, sym, ap, ◌∙◌, arith}
use otx.Net.Xtea.{
  wrap32, minus32, delta, Key, first_term, second_term, encrypt_round, decrypt_round, repeat,
  encrypt_words, decrypt_words, Rounds,
}

-- Words and sum in their range.
pub record IsRounds (r : Rounds) : Type 0 where
  pub v0_fits : r.v0 < 2 ^ 32
  pub v1_fits : r.v1 < 2 ^ 32
  pub sum_fits : r.sum < 2 ^ 32

encrypt_round-IsRounds : (k : Key) (r : Rounds) → IsRounds (encrypt_round k r)
unfolding encrypt_round
encrypt_round-IsRounds k r = omega arith

minus32-add : (a b : ℕ) → a < 2 ^ 32 → minus32 (wrap32 (a + b)) b ≡ a
minus32-add a b h = omega arith

add-minus32 : (a b : ℕ) → a < 2 ^ 32 → b < 2 ^ 32 → wrap32 (minus32 a b + b) ≡ a
add-minus32 a b h k = omega arith

decrypt_round-encrypt_round :
    (k : Key) (r : Rounds) → IsRounds r → decrypt_round k (encrypt_round k r) ≡ r
unfolding encrypt_round decrypt_round
decrypt_round-encrypt_round k r h =
    let v0' = wrap32 (r.v0 + first_term k r.v1 r.sum) in
    let sum' = minus32 r.sum delta in
    let e1 = minus32-add r.v1 (second_term k v0' sum') h.v1_fits in
    let es = add-minus32 r.sum delta h.sum_fits (omega arith) in
    let e0 = minus32-add r.v0 (first_term k r.v1 r.sum) h.v0_fits in
    rw (e1, es) (λ i. record { v0 = e0 i; v1 = r.v1; sum = r.sum })

repeat_comm :
    (n : ℕ) (step : Rounds → Rounds) (r : Rounds) → repeat n step (step r) ≡ step (repeat n step r)
unfolding repeat
repeat_comm zero step r = refl
repeat_comm (suc n) step r = repeat_comm n step (step r)

repeat-IsRounds :
    (k : Key) (n : ℕ) (r : Rounds) → IsRounds r → IsRounds (repeat n (encrypt_round k) r)
unfolding repeat
repeat-IsRounds k zero r h = h
repeat-IsRounds k (suc n) r h = repeat-IsRounds k n (encrypt_round k r) (encrypt_round-IsRounds k r)

decrypt_rounds-encrypt_rounds :
    (k : Key) (n : ℕ) (r : Rounds)
    → IsRounds r
    → repeat n (decrypt_round k) (repeat n (encrypt_round k) r) ≡ r
unfolding repeat
decrypt_rounds-encrypt_rounds k zero r h = refl
decrypt_rounds-encrypt_rounds k (suc n) r h =
    repeat_comm n (decrypt_round k) (repeat n (encrypt_round k) (encrypt_round k r))
    ∙ ap (decrypt_round k)
        (decrypt_rounds-encrypt_rounds k n (encrypt_round k r) (encrypt_round-IsRounds k r))
    ∙ decrypt_round-encrypt_round k r h

-- The sum after some rounds does not depend on the words.
sum_after : ℕ → ℕ → ℕ
sum_after zero s = s
sum_after (suc n) s = sum_after n (minus32 s delta)

repeat-sum : (k : Key) (n : ℕ) (r : Rounds) → (repeat n (encrypt_round k) r).sum ≡ sum_after n r.sum
unfolding repeat sum_after encrypt_round
repeat-sum k zero r = refl
repeat-sum k (suc n) r = repeat-sum k n (encrypt_round k r)

final_sum : sum_after 32 0 ≡ 0xC6EF3720
unfolding sum_after
final_sum = refl

abbrev start : ℕ × ℕ → Rounds
start (v0, v1) = record { v0 = v0; v1 = v1; sum = 0 }

abbrev pub AreWords : ℕ × ℕ → Type 0
AreWords (v0, v1) = (v0 < 2 ^ 32) × (v1 < 2 ^ 32)

pub encrypt_words-AreWords : (k : Key) (w : ℕ × ℕ) → AreWords w → AreWords (encrypt_words k w)
unfolding encrypt_words
encrypt_words-AreWords k (v0, v1) h =
    let r = repeat-IsRounds k 32 (start (v0, v1)) (omega arith) in (r.v0_fits, r.v1_fits)

-- The 32 decryption rounds, which start from the constant that the encryption's sum ends with, undo
-- the 32 encryption rounds, for every key and every block of two 32-bit words.
pub decrypt_words-encrypt_words :
    (k : Key) (w : ℕ × ℕ) → AreWords w → decrypt_words k (encrypt_words k w) ≡ w
unfolding encrypt_words decrypt_words
decrypt_words-encrypt_words k (v0, v1) h = λ i. ((back i).v0, (back i).v1)
  where
    done : Rounds
    done = repeat 32 (encrypt_round k) (start (v0, v1))

    ends : done.sum ≡ 0xC6EF3720
    ends = repeat-sum k 32 (start (v0, v1)) ∙ final_sum

    back :
        repeat 32 (decrypt_round k) (record { v0 = done.v0; v1 = done.v1; sum = 0xC6EF3720 })
        ≡ start (v0, v1)
    back =
        ap (λ s. repeat 32 (decrypt_round k) (record { v0 = done.v0; v1 = done.v1; sum = s }))
          (sym ends)
        ∙ decrypt_rounds-encrypt_rounds k 32 (start (v0, v1)) (omega arith)
