-- ===== src/Store/Key/RoundTrip.antt =====
-- A key (`(*DocumentTask).Key` of internal/store/document.go) is read back as what it was made of. The
-- reader is no code of the program.
use mathlib.Core.List.{append_assoc, append-nil}
use paperminer.Base.{
  ℕ, zero, suc, ◌+◌, ◌*◌, ◌/◌, ◌^◌, ◌<◌, ◌≡◌, refl, subst, ap, ◌∙◌, pos, Option, none, some, List,
  [], ◌∷◌, ◌++◌, arith, length, ◌==◌, if◌then◌else◌,
}
use paperminer.Store.{
  DocumentTask, codes, unix_micro, bits_64, little_endian, escapes, quote_to_ascii, key,
}
use paperminer.Store.Key.{read_rune}
use paperminer.Store.Key.Quote.{IsText, rest_of, ends}
use paperminer.Store.Key.Injective.{shifted, bits_64-bounded}

abbrev then_read : {A B : Type 0} → Option (A × List ℕ) → (A → List ℕ → Option B) → Option B
then_read none f = none
then_read (some (a, rest)) f = f a rest

-- A number of k bytes, the lowest first.
unfoldable pub read_bytes : ℕ → List ℕ → Option (ℕ × List ℕ)
read_bytes zero l = some (0, l)
read_bytes (suc k) [] = none
read_bytes (suc k) (b ∷ l) = then_read (read_bytes k l) λ v rest. some (b + 256 * v, rest)

abbrev read_mark : ℕ → List ℕ → Option (Unit {0} × List ℕ)
read_mark b [] = none
read_mark b (c ∷ l) = if c == b then some (tt, l) else none

-- The runes up to the closing quote.
abbrev more_text :
    Option (ℕ × List ℕ) → (List ℕ → Option (List ℕ × List ℕ)) → List ℕ → Option (List ℕ × List ℕ)
more_text none more l = then_read (read_mark 0x22 l) λ u rest. some ([], rest)
more_text (some (r, rest)) more l = then_read (more rest) λ rs end. some (r ∷ rs, end)

abbrev read_text : ℕ → List ℕ → Option (List ℕ × List ℕ)
read_text zero l = none
read_text (suc n) l = more_text (read_rune l) (read_text n) l

unfoldable pub read_quoted : ℕ → List ℕ → Option (List ℕ × List ℕ)
read_quoted fuel l = then_read (read_mark 0x22 l) λ u rest. read_text fuel rest

pub record KeyParts : Type 0 where
  pub id : ℕ
  pub added : ℕ
  pub modified : ℕ
  pub original_checksum : List ℕ
  pub archive_checksum : List ℕ

unfoldable pub read_key : ℕ → List ℕ → Option KeyParts
read_key fuel l = then_read (read_bytes 8 l) λ id l1. then_read (read_bytes 8 l1) λ added l2.
    then_read (read_bytes 8 l2) λ modified l3. then_read (read_mark 0 l3) λ u l4.
      then_read (read_quoted fuel l4) λ original l5. then_read (read_quoted fuel l5) λ archive l6.
        some (record {
          id = id;
          added = added;
          modified = modified;
          original_checksum = original;
          archive_checksum = archive;
        })

read_bytes-little_endian :
    (k n : ℕ) (u : List ℕ) → n < 256 ^ k → read_bytes k (little_endian k n ++ u) ≡ some (n, u)
unfolding little_endian read_bytes
read_bytes-little_endian zero n u h = let e : n ≡ 0 = omega arith in rw e refl
read_bytes-little_endian (suc k) n u h =
    rw (read_bytes-little_endian k (n / 256) u (shifted k n h))
      (ap (λ v. some (v, u)) (omega arith))

closes :
    (u : List ℕ)
    → then_read {B = List ℕ × List ℕ}
        (read_mark 0x22 (escapes [] ++ (0x22 ∷ u)))
        (λ x rest. some ([], rest))
      ≡ some ([], u)
unfolding escapes
closes u = refl

read_text-escapes :
    (rs u : List ℕ) (n : ℕ)
    → IsText rs
    → length rs < n
    → read_text n (escapes rs ++ (0x22 ∷ u)) ≡ some (rs, u)
read_text-escapes rs u zero text enough = absurd (omega arith)
read_text-escapes [] u (suc n) text enough = rw (ends u) (closes u)
read_text-escapes (r ∷ rs) u (suc n) text enough =
    rw (rest_of r rs u text.0, read_text-escapes rs u n text.1 (omega arith)) refl

read_quoted-quote_to_ascii :
    (rs u : List ℕ) (fuel : ℕ)
    → IsText rs
    → length rs < fuel
    → read_quoted fuel (quote_to_ascii rs ++ u) ≡ some (rs, u)
unfolding quote_to_ascii read_quoted
read_quoted-quote_to_ascii rs u fuel text enough =
    rw (append_assoc (escapes rs) (0x22 ∷ []) u) (read_text-escapes rs u fuel text enough)

quoted_last :
    (rs : List ℕ) (fuel : ℕ)
    → IsText rs
    → length rs < fuel
    → read_quoted fuel (quote_to_ascii rs) ≡ some (rs, [])
quoted_last rs fuel text enough =
    subst (λ l. read_quoted fuel l ≡ some (rs, [])) (append-nil (quote_to_ascii rs))
      (read_quoted-quote_to_ascii rs [] fuel text enough)

abbrev parts : ℕ → ℕ → ℕ → List ℕ → List ℕ → KeyParts
parts a b c original archive = record {
  id = a;
  added = b;
  modified = c;
  original_checksum = original;
  archive_checksum = archive;
}

read_key-parts :
    (a b c : ℕ) (original archive : List ℕ) (fuel : ℕ)
    → a < 256 ^ 8
    → b < 256 ^ 8
    → c < 256 ^ 8
    → IsText original
    → IsText archive
    → length original < fuel
    → length archive < fuel
    → read_key fuel (
        little_endian 8 a
        ++ (little_endian 8 b
            ++ (little_endian 8 c ++ (0 ∷ (quote_to_ascii original ++ quote_to_ascii archive)))))
      ≡ some (parts a b c original archive)
unfolding read_key
read_key-parts a b c original archive fuel ha hb hc to ta fo fa =
    let at_end = quoted_last archive fuel ta fa in
    rw
      (
        read_bytes-little_endian 8 a _ ha,
        read_bytes-little_endian 8 b _ hb,
        read_bytes-little_endian 8 c _ hc,
        read_quoted-quote_to_ascii original (quote_to_ascii archive) fuel to fo,
        at_end,
      )
      refl

-- Reading the key of a record, with an ID of 63 bits and checksums of characters, gives back the ID,
-- the 64 bits of the microseconds of both times, and both checksums, on fuel that is more than the
-- length of either checksum.
pub read_key-key :
    (t : DocumentTask) (fuel : ℕ)
    → t.id < 2 ^ 63
    → IsText (codes t.original_checksum)
    → IsText (codes t.archive_checksum)
    → length (codes t.original_checksum) < fuel
    → length (codes t.archive_checksum) < fuel
    → read_key fuel (key t)
      ≡ some (record {
        id = t.id;
        added = bits_64 (unix_micro t.added);
        modified = bits_64 (unix_micro t.modified);
        original_checksum = codes t.original_checksum;
        archive_checksum = codes t.archive_checksum;
      })
unfolding key bits_64
read_key-key t fuel small original archive fuel_original fuel_archive =
    let id : bits_64 (pos t.id) ≡ t.id = omega arith in
    read_key-parts (bits_64 (pos t.id)) (bits_64 (unix_micro t.added))
      (bits_64 (unix_micro t.modified)) (codes t.original_checksum) (codes t.archive_checksum) fuel
      (bits_64-bounded (pos t.id)) (bits_64-bounded (unix_micro t.added))
      (bits_64-bounded (unix_micro t.modified)) original archive fuel_original fuel_archive
    ∙ ap
        (λ v. some (
          parts v (bits_64 (unix_micro t.added)) (bits_64 (unix_micro t.modified))
            (codes t.original_checksum) (codes t.archive_checksum)))
        id
