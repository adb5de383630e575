-- ===== src/Store/Key/Injective.antt =====
-- Two records have the same key only if they have the same ID, times and checksums.
use native.Mathlib.Nat.{div-lt_iff_lt-mul, pow-suc}
use paperminer.Base.{
  ℕ, zero, suc, ◌/◌, ◌^◌, ◌<◌, ◌≡◌, sym, ap, ℤ, pos, negsuc, List, [], ◌∷◌, ◌++◌, arith,
}
use paperminer.Store.{DocumentTask, codes, unix_micro, bits_64, little_endian, key}
use paperminer.Store.Key.Quote.{IsText, quote_to_ascii-injective}

lowest : {a b : ℕ} {u v : List ℕ} → a ∷ u ≡ b ∷ v → a ≡ b
lowest h = cc h

tail : {a b : ℕ} {u v : List ℕ} → a ∷ u ≡ b ∷ v → u ≡ v
tail h = cc h

pub shifted : (k x : ℕ) → x < 256 ^ suc k → x / 256 < 256 ^ k
shifted k x h = (div-lt_iff_lt-mul (omega arith)).1 (rw (sym (pow-suc 256 k)) h)

little_endian-injective :
    (k n m : ℕ) (u v : List ℕ)
    → n < 256 ^ k
    → m < 256 ^ k
    → little_endian k n ++ u ≡ little_endian k m ++ v
    → (n ≡ m) × (u ≡ v)
unfolding little_endian
little_endian-injective zero n m u v hn hm e = (omega arith, e)
little_endian-injective (suc k) n m u v hn hm e =
    let (high, rest) =
      little_endian-injective k (n / 256) (m / 256) u v (shifted k n hn) (shifted k m hm)
        (tail e) in
    (omega (arith, high, lowest e), rest)

pub bits_64-bounded : (z : ℤ) → bits_64 z < 256 ^ 8
unfolding bits_64
bits_64-bounded (pos n) = omega arith
bits_64-bounded (negsuc n) = omega arith

bits_64-pos : (n m : ℕ) → n < 2 ^ 63 → m < 2 ^ 63 → bits_64 (pos n) ≡ bits_64 (pos m) → n ≡ m
unfolding bits_64
bits_64-pos n m hn hm e = omega (arith, e)

-- Records with IDs that are positive 64-bit numbers, and checksums of characters, have the same key
-- only if their IDs, the 64-bit microseconds of both times, and both checksums are the same.
pub key-injective :
    (a b : DocumentTask)
    → a.id < 2 ^ 63
    → b.id < 2 ^ 63
    → IsText (codes a.original_checksum)
    → IsText (codes b.original_checksum)
    → IsText (codes a.archive_checksum)
    → IsText (codes b.archive_checksum)
    → key a ≡ key b
    → (a.id ≡ b.id)
      × (bits_64 (unix_micro a.added) ≡ bits_64 (unix_micro b.added))
      × (bits_64 (unix_micro a.modified) ≡ bits_64 (unix_micro b.modified))
      × (codes a.original_checksum ≡ codes b.original_checksum)
      × (codes a.archive_checksum ≡ codes b.archive_checksum)
unfolding key
key-injective a b ha hb ta tb ua ub e =
    let (id, e1) =
      little_endian-injective 8 (bits_64 (pos a.id)) (bits_64 (pos b.id)) _ _
        (bits_64-bounded (pos a.id)) (bits_64-bounded (pos b.id)) e in
    let (added, e2) =
      little_endian-injective 8 (bits_64 (unix_micro a.added)) (bits_64 (unix_micro b.added)) _ _
        (bits_64-bounded (unix_micro a.added)) (bits_64-bounded (unix_micro b.added)) e1 in
    let (modified, e3) =
      little_endian-injective 8 (bits_64 (unix_micro a.modified)) (bits_64 (unix_micro b.modified))
        _ _ (bits_64-bounded (unix_micro a.modified)) (bits_64-bounded (unix_micro b.modified))
        e2 in
    let (original, e4) =
      quote_to_ascii-injective (codes a.original_checksum) (codes b.original_checksum) _ _ ta tb
        (tail e3) in
    let (archive, _) =
      quote_to_ascii-injective (codes a.archive_checksum) (codes b.archive_checksum) [] [] ua ub
        (ap (λ l. l ++ []) e4) in
    (bits_64-pos a.id b.id ha hb id, added, modified, original, archive)
