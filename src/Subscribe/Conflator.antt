-- ===== src/Subscribe/Conflator.antt =====
-- core/subscribe/conflate.go: the buffer of a channel, which keeps one delta for an aggregate. The
-- flush timer stands with the hub.
pub mod Keys
pub mod Latest
pub mod Sorted
use fabriq.Prelude.{
  ℕ, Bool, true, false, not, List, [], ◌∷◌, ◌++◌, Option, none, some, GoString, codes, beq, str_lt,
  ltb, leb, length, map, Assoc, lookup, insert, if◌then◌else◌,
}
use fabriq.Subscribe.Delta.{Delta}

pub record Conflator : Type 0 where
  pub pending : Assoc Delta

abbrev pub new_conflator : Conflator
new_conflator = record { pending = [] }

unfoldable pub key : Delta → GoString
key d = d.aggregate ++ codes "/" ++ d.agg_id

-- `!ok || d.Version >= prev.Version`
abbrev pub replaces : Delta → Option Delta → Bool
replaces d none = true
replaces d (some prev) = leb prev.version d.version

abbrev pub is_empty : Assoc Delta → Bool
is_empty [] = true
is_empty (_ ∷ _) = false

-- The answer says whether the timer needs arming.
unfoldable pub offer : Conflator → Delta → Conflator × Bool
offer c d = (
  if replaces d (lookup (key d) c.pending)
      then record c { pending = insert (key d) d c.pending }
      else c,
  is_empty c.pending,
)

-- The order of `sort.Slice`.
unfoldable pub before : Delta → Delta → Bool
before a b =
    if not (beq a.stream_id b.stream_id)
    then str_lt a.stream_id b.stream_id
    else ltb a.version b.version

unfoldable pub place : Delta → List Delta → List Delta
place a [] = a ∷ []
place a (b ∷ bs) = let rest = place a bs in if before b a then b ∷ rest else a ∷ b ∷ bs

unfoldable pub sort : List Delta → List Delta
unfolding place
sort [] = []
sort (a ∷ as') = place a (sort as')

abbrev pub values : Assoc Delta → List Delta
values [] = []
values ((k, d) ∷ m) = d ∷ values m

unfoldable pub drain : Conflator → List Delta × Conflator
unfolding sort
drain c = (sort (values c.pending), record c { pending = [] })

unfoldable pub depth : Conflator → ℕ
depth c = length c.pending
