-- ===== src/Mesh/State.antt =====
-- The globals, and the monad of the functions that read and write them: `none` is a fault.
use batman_adv_userspace.Base.{
  ℕ, ◌==◌, List, [], ◌∷◌, ◌++◌, Bool, true, false, Option, none, some, if◌then◌else◌,
}
use batman_adv_userspace.Hash.{HashTable}
use batman_adv_userspace.Mesh.Types.{
  OrigNode, NeighNode, ForwNode, GwNode, BatmanIf, TransElement, Ref, Event,
}

-- `origs` and `elems` are the allocated originators and translation elements by address; every
-- address below `next` may have been given out. `events` is what the
-- program has sent so far.
pub record Mesh : Type 0 where
  pub origs : List (ℕ × OrigNode)
  pub orig_hash : HashTable Ref
  pub next : ℕ
  pub gw_list : List GwNode
  pub forw_list : List ForwNode
  pub if_list : List BatmanIf
  pub elems : List (ℕ × TransElement)
  pub trans_hash : HashTable Ref
  pub hna_list : List ℕ
  pub hna_changed : Bool
  pub num_hna : ℕ
  pub hna_buff : List ℕ
  pub curr_time : ℕ
  pub events : List Event

abbrev pub M : Type 0 → Type 0
M Result = Mesh → Option (Result × Mesh)

-- A step that only reads, and one that may fault.
abbrev pub gets : {Result : Type 0} → (Mesh → Result) → M Result
gets read mesh = some (read mesh, mesh)

abbrev pub lift : {Result : Type 0} → Option Result → M Result
lift none mesh = none
lift (some result) mesh = some (result, mesh)

abbrev pub return : {Result : Type 0} → Result → M Result
return result mesh = some (result, mesh)

infixl 5 ◌>>=◌ ◌>>◌
-- The rest runs where the first step did not fault.
abbrev pub ◌>>=◌ : {First Rest : Type 0} → M First → (First → M Rest) → M Rest
◌>>=◌ first rest mesh = elim (first mesh) [ some (result, after) ↦ rest result after | none ↦ none ]

abbrev pub ◌>>◌ : {Rest : Type 0} → M (Unit {0}) → M Rest → M Rest
first >> rest = first >>= λ _. rest

abbrev pub modify : (Mesh → Mesh) → M (Unit {0})
modify f h = some (tt, f h)

abbrev pub when : Bool → M (Unit {0}) → M (Unit {0})
when true m = m
when false m = return tt

-- The heap of allocated structures, as an association list by address.
module _ {ℓ} {A : Type ℓ} where
  unfoldable pub at : ℕ → List (ℕ × A) → Option A
  at p [] = none
  at p ((q, a) ∷ r) = if q == p then some a else at p r

  -- A write to an address that is not allocated is lost here; `store_orig` faults on one.
  unfoldable pub put : ℕ → A → List (ℕ × A) → List (ℕ × A)
  put p a [] = []
  put p a ((q, b) ∷ r) = if q == p then (q, a) ∷ r else (q, b) ∷ put p a r

  unfoldable pub free : ℕ → List (ℕ × A) → List (ℕ × A)
  free p [] = []
  free p ((q, a) ∷ r) = if q == p then r else (q, a) ∷ free p r

-- Reading and writing through an originator's pointer; both fault on a dangling one.
unfoldable pub orig_at : ℕ → M OrigNode
unfolding at
orig_at p h = elim (at p h.origs) [ none ↦ none | some o ↦ some (o, h) ]

unfoldable pub store_orig : ℕ → OrigNode → M (Unit {0})
unfolding at put
store_orig p o h = elim (at p h.origs) [
  | none ↦ none
  | some _ ↦ some (tt, record h { origs = put p o h.origs })
]

-- A neighbour in the list of its originator; `none` is a dangling pointer.
unfoldable pub neigh_at : ℕ → List NeighNode → Option NeighNode
neigh_at p [] = none
neigh_at p (n ∷ r) = if n.ptr == p then some n else neigh_at p r

unfoldable pub put_neigh : NeighNode → List NeighNode → List NeighNode
put_neigh n [] = []
put_neigh n (m ∷ r) = if m.ptr == n.ptr then n ∷ r else m ∷ put_neigh n r

unfoldable pub emit : Event → M (Unit {0})
emit e h = some (tt, record h { events = h.events ++ e ∷ [] })

-- An interface by its number; a number that none has faults.
unfoldable pub find_if : ℕ → List BatmanIf → Option BatmanIf
find_if n [] = none
find_if n (i ∷ r) = if i.if_num == n then some i else find_if n r
