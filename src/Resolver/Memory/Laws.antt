-- ===== src/Resolver/Memory/Laws.antt =====
-- The in-memory provider behaves as the server is expected to: names are unique, every object has an
-- ID of its own, and a name is created once.
use paperminer.Base.{
  ℕ, suc, ◌≤◌, ◌≡◌, refl, ◌∙◌, sym, ◌≢◌, String, Option-cases, inl, inr, List, [], ◌∷◌, Option,
  none, some, str_eq, eq_iff, eq_refl, arith, if◌then◌else◌,
}
use paperminer.Io.{ok}
use paperminer.Io.Laws.{result_of, state_of}
use paperminer.Paperless.{Object}
use paperminer.Resolver.{get_by_name, get_or_create_by_name}
use paperminer.Resolver.Memory.{MemState, new_mem_state, find, insert, new_mem_resolver}

pub find-insert :
    (k j : String) (v : Object) (m : List (String × Object))
    → find j (insert k v m) ≡ (if str_eq k j then some v else find j m)
unfolding find insert
find-insert k j v [] = refl
find-insert k j v ((i, w) ∷ m) =
    ground (arith, eq_iff k j, eq_iff i k, eq_iff i j, find-insert k j v m)

-- What a resolver over the provider returns for a name, and the state that it leaves.
abbrev resolve_in : String → MemState → Option Object → Object × MemState
resolve_in name s (some v) = (v, s)
resolve_in name s none =
    let v : Object = record { id = suc s.id; name = name } in
    (v, record { objects = insert name v s.objects; id = suc s.id })

abbrev pub resolved : String → MemState → Object × MemState
resolved name s = resolve_in name s (find name s.objects)

-- `GetOrCreateByName` over the in-memory provider always succeeds: with the object that is stored
-- under the name, or with a new one that has the next ID and is stored from then on.
pub get_or_create_by_name-mem :
    (kind name : String) (s : MemState)
    → get_or_create_by_name (new_mem_resolver kind) name s
      ≡ (ok (resolved name s).0, (resolved name s).1)
unfolding new_mem_resolver get_or_create_by_name
get_or_create_by_name-mem kind name s = elim (Option-cases (find name s.objects)) [
  | inl missing ↦ rw missing (simp (missing, find-insert, eq_refl))
  | inr (v, found) ↦ rw found
]

-- Where a call leaves its name and every other name.
pub find-resolved :
    (name k : String) (s : MemState)
    → find k (resolved name s).1.objects
      ≡ (if str_eq name k then some (resolved name s).0 else find k s.objects)
find-resolved name k s = elim (Option-cases (find name s.objects)) [
  | inl missing ↦ rw missing (rw find-insert)
  | inr (v, found) ↦ rw found (ground (arith, eq_iff name k))
]

resolved_idem : (name : String) (s : MemState) → resolved name (resolved name s).1 ≡ resolved name s
resolved_idem name s = rw (find-resolved name name s) (rw eq_refl)

-- Asking again returns the same object and changes nothing, and so does `GetByName`.
pub get_or_create_by_name_idem :
    (kind name : String) (s : MemState)
    → let r = new_mem_resolver kind in
      let (found, t) = get_or_create_by_name r name s in
      (get_or_create_by_name r name t ≡ (found, t)) × (get_by_name r name t ≡ (found, t))
unfolding new_mem_resolver get_by_name
get_or_create_by_name_idem kind name s = rw (get_or_create_by_name-mem kind name s) (
  get_or_create_by_name-mem kind name (resolved name s).1 ∙ rw (resolved_idem name s),
  rw (find-resolved name name s) (rw eq_refl),
)

-- Names are the keys, IDs are given out once, and none exceeds the counter.
pub record IsValid (s : MemState) : Type 0 where
  pub named : (k : String) (v : Object) → find k s.objects ≡ some v → v.name ≡ k
  pub bounded : (k : String) (v : Object) → find k s.objects ≡ some v → v.id ≤ s.id
  pub distinct :
      (j k : String) (v w : Object)
      → find j s.objects ≡ some v
      → find k s.objects ≡ some w
      → v.id ≡ w.id
      → j ≡ k

pub new_mem_state-IsValid : (start : ℕ) → IsValid (new_mem_state start)
unfolding new_mem_state find
new_mem_state-IsValid start = record {
  named = λ k v h. cc;
  bounded = λ k v h. cc;
  distinct = λ j k v w h. cc;
}

module _ (name : String) (s : MemState) (valid : IsValid s) where
  created-IsValid :
      let v : Object = record { id = suc s.id; name = name } in
      IsValid (record { objects = insert name v s.objects; id = suc s.id })
  created-IsValid =
      let x : Object = record { id = suc s.id; name = name } in
      let at = λ (k : String). find-insert name k x s.objects in
      record {
        named = λ k v h. ground (arith, at k, eq_iff name k, valid.named k v);
        bounded = λ k v h. ground (arith, at k, eq_iff name k, valid.bounded k v);
        distinct = λ j k v w hj hk e. ground (
          arith,
          at j,
          at k,
          eq_iff name j,
          eq_iff name k,
          valid.distinct j k v w,
          valid.bounded j v,
          valid.bounded k w,
        );
      }

  -- A call keeps the state valid.
  pub resolved-IsValid : IsValid (resolved name s).1
  resolved-IsValid = elim (Option-cases (find name s.objects)) [
    | inl missing ↦ rw missing created-IsValid
    | inr (v, found) ↦ rw found valid
  ]

-- `GetOrCreateByName` keeps the state valid.
pub get_or_create_by_name-IsValid :
    (kind name : String) (s : MemState)
    → IsValid s
    → IsValid (get_or_create_by_name (new_mem_resolver kind) name s).1
get_or_create_by_name-IsValid kind name s valid =
    rw (get_or_create_by_name-mem kind name s) (resolved-IsValid name s valid)

resolved-eq :
    (kind name : String) (s t : MemState) (x : Object)
    → get_or_create_by_name (new_mem_resolver kind) name s ≡ (ok x, t)
    → (x ≡ (resolved name s).0) × (t ≡ (resolved name s).1)
resolved-eq kind name s t x h =
    let e = sym (get_or_create_by_name-mem kind name s) ∙ h in (cc (result_of e), cc (state_of e))

-- Two names have two IDs, in whatever state the first was resolved.
pub get_or_create_by_name_distinct :
    (kind a b : String) (s t u : MemState) (x y : Object)
    → IsValid s
    → a ≢ b
    → get_or_create_by_name (new_mem_resolver kind) a s ≡ (ok x, t)
    → get_or_create_by_name (new_mem_resolver kind) b t ≡ (ok y, u)
    → x.id ≢ y.id
get_or_create_by_name_distinct kind a b s t u x y valid ne ha hb e =
    let (ex, et) = resolved-eq kind a s t x ha in
    let (ey, eu) = resolved-eq kind b t u y hb in
    let valid_t : IsValid t = rw et (resolved-IsValid a s valid) in
    let stored : find a t.objects ≡ some x = rw (et, ex) (find-resolved a a s ∙ rw eq_refl) in
    ne (
      (resolved-IsValid b t valid_t).distinct a b x y
        (ground (arith, find-resolved b a t, eq_iff b a, stored))
        (find-resolved b b t ∙ rw eq_refl (cc ey)) e)
