-- ===== src/Ring/Holds.antt =====
-- How a ring represents a queue: the invariant of the indices and the slots, and the two moves on
-- which every operation rests, an item written behind the last and the oldest item taken.
use Prim.Native.Nat.{◌∣◌}
use native.Mathlib.Nat.{pow-le-pow_right, mod-lt}
use abmac_lib.Prelude.{
  ℕ, ◌+◌, ◌%◌, ◌^◌, ◌≤◌, ◌<◌, ◌≡◌, refl, ◌∙◌, List, [], ◌∷◌, ◌++◌, none, some, length, set, arith,
  word, wrapping_add, wrapping_sub, bit_and-mask, pow_pos, pow-dvd-word, wrapping-mod, length-set,
  length-append, length-replicate,
}
use abmac_lib.Ring.{Ring, with_spout_cold, max_capacity}
use abmac_lib.Ring.Slots.{mask, read_slot, write_slot}
use abmac_lib.Ring.Window.{
  Window, Window-free, Window-wrap, Window-push, Window-pop, read_slot-Window, write_slot-some,
}
use abmac_lib.Ring.Queue.{Queue}

-- The assertions on `N`: a power of two, and at most `MAX_CAPACITY`.
pub record IsCapacity (n : ℕ) : Type 0 where
  pub log : ℕ
  pub small : log ≤ 20
  pub power : n ≡ 2 ^ log

pub IsCapacity-pos : {n : ℕ} → IsCapacity n → 0 < n
IsCapacity-pos c = rw c.power (pow_pos c.log)

pub IsCapacity-le : {n : ℕ} → IsCapacity n → n ≤ max_capacity
IsCapacity-le c = rw c.power (pow-le-pow_right {n = 2} (omega arith) c.small)

pub IsCapacity-dvd : {n : ℕ} → IsCapacity n → n ∣ word
IsCapacity-dvd c = rw c.power (pow-dvd-word c.log (omega (arith, c.small)))

pub mask-mod : {n : ℕ} → IsCapacity n → (i : ℕ) → mask n i ≡ i % n
mask-mod c i = rw c.power (bit_and-mask c.log i)

-- The slots from the head on hold the items of the queue, oldest first, and the others are free.
pub record Holds {ℓ κ} {T : Type ℓ} {S : Type κ} (n : ℕ) (r : Ring T S) (p : Queue T S)
    : Type (ℓ ⊔ κ) where
  pub size : length r.buffer ≡ n
  pub head_word : r.head < word
  pub tail_eq : r.tail ≡ wrapping_add r.head (length p.0)
  pub fits : length p.0 ≤ n
  pub window : Window n r.buffer r.head p.0
  pub state : r.spout ≡ p.1

-- What a write behind the last item, and a read of the oldest, leave.
abbrev pub with_back {ℓ κ} : {T : Type ℓ} {S : Type κ} → ℕ → T → Ring T S → Ring T S
with_back n x r = record r {
  buffer = set r.buffer (mask n r.tail) (some x);
  tail = wrapping_add r.tail 1;
}

abbrev pub without_front {ℓ κ} : {T : Type ℓ} {S : Type κ} → ℕ → Ring T S → Ring T S
without_front n r = record r {
  buffer = set r.buffer (mask n r.head) none;
  head = wrapping_add r.head 1;
}

module _ {ℓ κ} {T : Type ℓ} {S : Type κ} {n : ℕ} (c : IsCapacity n) where
  -- A new ring holds nothing.
  pub with_spout_cold-Holds : (s : S) → Holds {T = T} n (with_spout_cold n s) ([], s)
  unfolding with_spout_cold
  with_spout_cold-Holds s = record {
    size = length-replicate n none;
    head_word = omega arith;
    tail_eq = refl;
    fits = omega arith;
    window = Window-free n n 0;
    state = refl;
  }

  pub len-Holds :
      {r : Ring T S} {p : Queue T S} → Holds n r p → wrapping_sub r.tail r.head ≡ length p.0
  len-Holds {r} {p} h = rw h.tail_eq (omega (arith, IsCapacity-le c, h.head_word, h.fits))

  tail-mod :
      {r : Ring T S} {p : Queue T S} → Holds n r p → mask n r.tail ≡ (r.head + length p.0) % n
  tail-mod {r} {p} h =
      mask-mod c r.tail ∙ rw h.tail_eq (wrapping-mod (r.head + length p.0) n (IsCapacity-dvd c))

  pub write-back :
      (r : Ring T S) (q : List T) (s : S) (x : T)
      → Holds n r (q, s)
      → length q < n
      → write_slot r.buffer (mask n r.tail) x ≡ some (set r.buffer (mask n r.tail) (some x))
  write-back r q s x h room =
      write_slot-some r.buffer (mask n r.tail) x
        (rw (tail-mod h, h.size) (mod-lt (r.head + length q) {m = n} (omega arith)))

  pub with_back-Holds :
      (r : Ring T S) (q : List T) (s : S) (x : T)
      → Holds n r (q, s)
      → length q < n
      → Holds n (with_back n x r) (q ++ x ∷ [], s)
  with_back-Holds r q s x h room = record {
    size = length-set r.buffer _ (some x) ∙ h.size;
    head_word = h.head_word;
    tail_eq = rw (h.tail_eq, length-append) (omega (arith));
    fits = rw length-append (omega arith);
    window = rw (tail-mod h) (Window-push n r.buffer r.head q x h.size room h.window);
    state = h.state;
  }

  pub read-front :
      (r : Ring T S) (x : T) (q : List T) (s : S)
      → Holds n r (x ∷ q, s)
      → read_slot r.buffer (mask n r.head) ≡ some (x, set r.buffer (mask n r.head) none)
  read-front r x q s h =
      rw (mask-mod c) (read_slot-Window n r.buffer r.head x q h.size h.fits h.window)

  pub without_front-Holds :
      (r : Ring T S) (x : T) (q : List T) (s : S)
      → Holds n r (x ∷ q, s)
      → Holds n (without_front n r) (q, s)
  without_front-Holds r x q s h = record {
    size = length-set r.buffer _ none ∙ h.size;
    head_word = omega (arith, mod-lt (r.head + 1) {m = word} (omega arith));
    tail_eq = rw h.tail_eq (omega arith);
    fits = omega (arith, h.fits);
    window = rw (mask-mod c) (
        Window-wrap n _ (r.head + 1) q (IsCapacity-dvd c)
          (Window-pop n r.buffer r.head x q h.size h.fits h.window));
    state = h.state;
  }
