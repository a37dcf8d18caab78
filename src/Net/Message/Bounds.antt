-- ===== src/Net/Message/Bounds.antt =====
-- Memory safety of the message buffer: what writes may touch, and what a failed or an
-- out-of-bounds read does.
use otx.Prelude.{
  ℕ, ◌+◌, ◌≤◌, ◌<◌, min, bit_and, ◌≡◌, refl, ◌∙◌, ◌⊎◌, Bool, true, false, ◌||◌, List, [], ◌∷◌,
  arith, if◌then◌else◌, length, All, store, store_outside, store_all_outside, fill_outside,
}
use otx.Position.{Position}
use otx.Net.Message.{
  max_body_length, wrap16, add_byte, add, add_bytes, add_padding_bytes, add_string, add_position,
  fluid_map, add_item, add_item_of, Message, ItemType,
}

-- A call that writes to a message.
pub data Write : Type 0 where
  byte : ℕ → Write
  number : ℕ → ℕ → Write
  bytes string : List ℕ → Write
  padding : ℕ → Write
  place : Position → Write
  item : ItemType → ℕ → Write
  item_of : ItemType → ℕ → ℕ → Write

abbrev pub apply : Write → Message → Message
apply (byte v) m = add_byte v m
apply (number n v) m = add n v m
apply (bytes xs) m = add_bytes xs m
apply (string xs) m = add_string xs m
apply (padding n) m = add_padding_bytes n m
apply (place p) m = add_position p m
apply (item it count) m = add_item it count m
apply (item_of it count fluid) m = add_item_of it count fluid m

-- The sizes that leave the sum of `canAdd` without a wrap: an integer has 8 bytes at most, and
-- padding may be of any size up to 2^64 less the body's limit.
abbrev pub IsSized : Write → Type 0
IsSized (byte v) = Unit {0}
IsSized (number n v) = n ≤ 8
IsSized (bytes xs) = Unit {0}
IsSized (string xs) = Unit {0}
IsSized (padding n) = n ≤ 18446744073709527040
IsSized (place p) = Unit {0}
IsSized (item it count) = Unit {0}
IsSized (item_of it count fluid) = Unit {0}

abbrev pub apply_all : List Write → Message → Message
apply_all [] m = m
apply_all (w ∷ ws) m = apply_all ws (apply w m)

-- The second message comes from the first by writes at its cursor: the cursor only grows and stays
-- within the body, and the bytes before it and those beyond the body's limit are kept.
pub record Wrote (m n : Message) : Type 0 where
  pub grows : m.position ≤ n.position
  pub within : n.position < max_body_length
  pub kept : (i : ℕ) → (i < m.position) ⊎ (max_body_length ≤ i) → n.buffer i ≡ m.buffer i
  pub flag : n.overrun ≡ m.overrun

Wrote-refl : {m : Message} → m.position < max_body_length → Wrote m m
Wrote-refl h = record { grows = omega arith; within = h; kept = λ i h. refl; flag = refl }

Wrote-trans : {m n o : Message} → Wrote m n → Wrote n o → Wrote m o
Wrote-trans v w = record {
  grows = omega arith;
  within = w.within;
  kept = λ i h. ground (arith, w.kept i, v.kept i);
  flag = w.flag ∙ v.flag;
}

module _ (m : Message) (fits : m.position < max_body_length) where
  add-Wrote : (n v : ℕ) → n ≤ 8 → Wrote m (add n v m)
  unfolding add
  add-Wrote n v size = record {
    grows = ground arith;
    within = ground arith;
    kept = λ i h. ground (arith, store_outside n m.buffer m.position v i);
    flag = ground arith;
  }

  add_byte-Wrote : (v : ℕ) → Wrote m (add_byte v m)
  unfolding add_byte
  add_byte-Wrote v = record {
    grows = ground arith;
    within = ground arith;
    kept = λ i h. ground (arith, store_outside 1 m.buffer m.position v i);
    flag = ground arith;
  }

  add_bytes-Wrote : (xs : List ℕ) → Wrote m (add_bytes xs m)
  unfolding add_bytes
  add_bytes-Wrote xs = record {
    grows = ground arith;
    within = ground arith;
    kept = λ i h. ground (arith, store_all_outside xs m.buffer m.position i);
    flag = ground arith;
  }

  add_padding_bytes-Wrote : (n : ℕ) → n ≤ 18446744073709527040 → Wrote m (add_padding_bytes n m)
  unfolding add_padding_bytes
  add_padding_bytes-Wrote n size = record {
    grows = ground arith;
    within = ground arith;
    kept = λ i h. ground (arith, fill_outside n m.buffer m.position 0x33 i);
    flag = ground arith;
  }

  add_string-Wrote : (xs : List ℕ) → Wrote m (add_string xs m)
  unfolding add_string
  add_string-Wrote xs = record {
    grows = ground arith;
    within = ground arith;
    kept = λ i h. ground (
      arith,
      store_outside 2 m.buffer m.position (length xs) i,
      store_all_outside xs (store 2 m.buffer m.position (length xs)) (wrap16 (m.position + 2)) i,
    );
    flag = ground arith;
  }

add_position-Wrote :
    (p : Position) (m : Message) → m.position < max_body_length → Wrote m (add_position p m)
unfolding add_position
add_position-Wrote p m h =
    let v = add-Wrote m h 2 p.x (omega arith) in
    let w = add-Wrote (add 2 p.x m) v.within 2 p.y (omega arith) in
    Wrote-trans (Wrote-trans v w) (add_byte-Wrote (add 2 p.y (add 2 p.x m)) w.within p.z)

-- A byte that is written under a condition.
if-Wrote :
    {m : Message} (b : Bool) (n o : Message) → Wrote m n → Wrote m o → Wrote m (if b then n else o)
if-Wrote true n o v w = v
if-Wrote false n o v w = w

-- The common shape of both item writers: one optional byte of data, then the phase.
add_item_of-Wrote :
    (it : ItemType) (count fluid : ℕ) (m : Message)
    → m.position < max_body_length
    → Wrote m (add_item_of it count fluid m)
unfolding add_item_of
add_item_of-Wrote it count fluid m h =
    let v = add-Wrote m h 2 it.client_id (omega arith) in
    let m₀ = add 2 it.client_id m in
    let w = Wrote-trans v (add_byte-Wrote m₀ v.within 0xFF) in
    let m₁ = add_byte 0xFF m₀ in
    let stack = Wrote-trans w (add_byte-Wrote m₁ w.within (min 0xFF count)) in
    let fluids = Wrote-trans w (add_byte-Wrote m₁ w.within (fluid_map (bit_and fluid 7))) in
    let u =
      if-Wrote it.stackable _ _ stack
        (if-Wrote (it.is_splash || it.is_fluid_container) _ _ fluids w) in
    if-Wrote it.is_animation _ _ (Wrote-trans u (add_byte-Wrote _ u.within 0xFE)) u

add_item-Wrote :
    (it : ItemType) (count : ℕ) (m : Message)
    → m.position < max_body_length
    → Wrote m (add_item it count m)
unfolding add_item
add_item-Wrote it count m h =
    let v = add-Wrote m h 2 it.client_id (omega arith) in
    let m₀ = add 2 it.client_id m in
    let w = Wrote-trans v (add_byte-Wrote m₀ v.within 0xFF) in
    let m₁ = add_byte 0xFF m₀ in
    let stack = Wrote-trans w (add_byte-Wrote m₁ w.within count) in
    let fluids = Wrote-trans w (add_byte-Wrote m₁ w.within (fluid_map (bit_and count 7))) in
    let u =
      if-Wrote it.stackable _ _ stack
        (if-Wrote (it.is_splash || it.is_fluid_container) _ _ fluids w) in
    if-Wrote it.is_animation _ _ (Wrote-trans u (add_byte-Wrote _ u.within 0xFE)) u

apply-Wrote :
    (w : Write) (m : Message) → IsSized w → m.position < max_body_length → Wrote m (apply w m)
apply-Wrote (byte v) m s h = add_byte-Wrote m h v
apply-Wrote (number n v) m s h = add-Wrote m h n v s
apply-Wrote (bytes xs) m s h = add_bytes-Wrote m h xs
apply-Wrote (string xs) m s h = add_string-Wrote m h xs
apply-Wrote (padding n) m s h = add_padding_bytes-Wrote m h n s
apply-Wrote (place p) m s h = add_position-Wrote p m h
apply-Wrote (item it count) m s h = add_item-Wrote it count m h
apply-Wrote (item_of it count fluid) m s h = add_item_of-Wrote it count fluid m h

-- Whatever calls write to a message whose cursor is within the body, in whatever order, integers of
-- up to 8 bytes, padding of up to 2^64 less the body's limit, and byte strings of any length: the cursor never moves back and stays within the body, no byte at or beyond the
-- body's limit and no byte before the first cursor is changed, and the overrun flag is kept.
pub apply_all-Wrote :
    (ws : List Write) (m : Message)
    → All IsSized ws
    → m.position < max_body_length
    → Wrote m (apply_all ws m)
apply_all-Wrote [] m s h = Wrote-refl h
apply_all-Wrote (w ∷ ws) m s h =
    let v = apply-Wrote w m s.0 h in Wrote-trans v (apply_all-Wrote ws (apply w m) s.1 v.within)
