-- ===== src/Subscribe/Hub/Streams.antt =====
-- core/subscribe/hub.go: what a subscriber of a raw channel has been sent.
use mathlib.Core.Path.{subst}
use mathlib.Core.List.{append-nil, append_assoc}
use fabriq.Prelude.{
  ℕ, ◌≡◌, refl, ap, sym, ◌∙◌, ◌⊎◌, inl, inr, true, List, [], ◌∷◌, ◌++◌, map, some, GoString, arith,
  Bool-cases, beq, Assoc, lookup, length, ltb, ◌==◌,
}
use fabriq.Subscribe.Delta.{Delta}
use fabriq.Subscribe.Hub.{
  Subscriber, Subs, ChannelState, others, named, send_all, subscribers, all_subscribers,
}
use fabriq.Subscribe.Hub.Run.{take_next, receive, receive_live}

abbrev pub stream : Subscriber → List Delta
stream s = s.read ++ s.queue

-- Among the subscribers is the Go channel `n`, and `str` is what went into it.
abbrev pub Has : ℕ → List Delta → List Subscriber → Type 0
Has n str [] = ⊥
Has n str (s ∷ ss) = ((s.address ≡ n) × (stream s ≡ str)) ⊎ Has n str ss

-- Among them is the Go channel `n`, and what went into it is a first part of `str`.
abbrev pub HasPrefix : ℕ → List Delta → List Subscriber → Type 0
HasPrefix n str [] = ⊥
HasPrefix n str (s ∷ ss) =
    ((s.address ≡ n) × ((rest : List Delta) × (stream s ++ rest ≡ str))) ⊎ HasPrefix n str ss

pub Has-HasPrefix :
    (n : ℕ) (str : List Delta) (ss : List Subscriber) → Has n str ss → HasPrefix n str ss
Has-HasPrefix n str [] h = elim h [ ]
Has-HasPrefix n str (s ∷ ss) (inl (e, p)) = inl (e, ([], append-nil (stream s) ∙ p))
Has-HasPrefix n str (s ∷ ss) (inr h) = inr (Has-HasPrefix n str ss h)

pub HasPrefix-append :
    (n : ℕ) (str more : List Delta) (ss : List Subscriber)
    → HasPrefix n str ss
    → HasPrefix n (str ++ more) ss
HasPrefix-append n str more [] h = elim h [ ]
HasPrefix-append n str more (s ∷ ss) (inl (e, (rest, p))) =
    inl (e, (rest ++ more, sym (append_assoc (stream s) rest more) ∙ ap (λ x. x ++ more) p))
HasPrefix-append n str more (s ∷ ss) (inr h) = inr (HasPrefix-append n str more ss h)

pub HasPrefix-left :
    (n : ℕ) (str : List Delta) (xs ys : List Subscriber)
    → HasPrefix n str xs
    → HasPrefix n str (xs ++ ys)
HasPrefix-left n str [] ys h = elim h [ ]
HasPrefix-left n str (x ∷ xs) ys (inl h) = inl h
HasPrefix-left n str (x ∷ xs) ys (inr h) = inr (HasPrefix-left n str xs ys h)

pub HasPrefix-right :
    (n : ℕ) (str : List Delta) (xs ys : List Subscriber)
    → HasPrefix n str ys
    → HasPrefix n str (xs ++ ys)
HasPrefix-right n str [] ys h = h
HasPrefix-right n str (x ∷ xs) ys h = inr (HasPrefix-right n str xs ys h)

pub Has-append :
    (n : ℕ) (str : List Delta) (xs ys : List Subscriber)
    → Has n str xs ⊎ Has n str ys
    → Has n str (xs ++ ys)
Has-append n str [] ys (inl h) = elim h [ ]
Has-append n str [] ys (inr h) = h
Has-append n str (x ∷ xs) ys (inl (inl h)) = inl h
Has-append n str (x ∷ xs) ys (inl (inr h)) = inr (Has-append n str xs ys (inl h))
Has-append n str (x ∷ xs) ys (inr h) = inr (Has-append n str xs ys (inr h))

pub Has-cancelled :
    (n : ℕ) (str : List Delta) (id : ℕ) (subs : Subs)
    → Has n str (subscribers subs)
    → Has n str (subscribers (others id subs)) ⊎ Has n str (named id subs)
Has-cancelled n str id [] h = elim h [ ]
Has-cancelled n str id ((i, s) ∷ subs) h = elim (Bool-cases (i == id)) [
  | inl b ↦ rw b (elim h [
    | inl p ↦ inr (inl p)
    | inr q ↦ elim (Has-cancelled n str id subs q) [ inl x ↦ inl x | inr y ↦ inr (inr y) ]
  ])
  | inr b ↦ rw b (elim h [
    | inl p ↦ inl (inl p)
    | inr q ↦ elim (Has-cancelled n str id subs q) [ inl x ↦ inl (inr x) | inr y ↦ inr y ]
  ])
]

-- A frame goes into the Go channel, or the hub closes it with what it had.
pub Has-send_all :
    (n : ℕ) (str : List Delta) (d : Delta) (subs : Subs)
    → Has n str (subscribers subs)
    → Has n (str ++ d ∷ []) (subscribers (send_all true d subs).0)
      ⊎ Has n str (send_all true d subs).1
unfolding send_all
Has-send_all n str d [] h = elim h [ ]
Has-send_all n str d ((i, s) ∷ subs) h = elim (Bool-cases (ltb (length s.queue) s.capacity)) [
  | inl b ↦ rw b (elim h [
    | inl (e, p) ↦
        inl (inl (e, sym (append_assoc s.read s.queue (d ∷ [])) ∙ ap (λ x. x ++ d ∷ []) p))
    | inr q ↦ elim (Has-send_all n str d subs q) [ inl x ↦ inl (inr x) | inr y ↦ inr y ]
  ])
  | inr b ↦ rw b (elim h [
    | inl p ↦ inr (inl p)
    | inr q ↦ elim (Has-send_all n str d subs q) [ inl x ↦ inl x | inr y ↦ inr (inr y) ]
  ])
]

take_next-stream :
    (q : List Delta) (s : Subscriber)
    → s.queue ≡ q
    → (stream (take_next q s) ≡ stream s) × ((take_next q s).address ≡ s.address)
take_next-stream [] s e = (refl, refl)
take_next-stream (d ∷ ds) s e =
    (append_assoc s.read (d ∷ []) ds ∙ ap (λ x. s.read ++ x) (sym e), refl)

-- What a client reads stays part of what went into its Go channel.
stream-receive :
    (n : ℕ) (s : Subscriber)
    → (stream (receive n s) ≡ stream s) × ((receive n s).address ≡ s.address)
stream-receive n s = elim (Bool-cases (s.address == n)) [
  | inl b ↦ rw b (take_next-stream s.queue s refl)
  | inr b ↦ rw b (refl, refl)
]

pub Has-receive :
    (n : ℕ) (str : List Delta) (m : ℕ) (subs : Subs)
    → Has n str (subscribers subs)
    → Has n str (subscribers (receive_live m subs))
Has-receive n str m [] h = elim h [ ]
Has-receive n str m ((i, s) ∷ subs) (inl (e, p)) =
    inl ((stream-receive m s).1 ∙ e, (stream-receive m s).0 ∙ p)
Has-receive n str m ((i, s) ∷ subs) (inr h) = inr (Has-receive n str m subs h)

pub HasPrefix-receive :
    (n : ℕ) (str : List Delta) (m : ℕ) (ss : List Subscriber)
    → HasPrefix n str ss
    → HasPrefix n str (map (receive m) ss)
HasPrefix-receive n str m [] h = elim h [ ]
HasPrefix-receive n str m (s ∷ ss) (inl (e, (rest, p))) =
    inl ((stream-receive m s).1 ∙ e, (rest, ap (λ x. x ++ rest) (stream-receive m s).0 ∙ p))
HasPrefix-receive n str m (s ∷ ss) (inr h) = inr (HasPrefix-receive n str m ss h)

pub Has-all_subscribers :
    (n : ℕ) (str : List Delta) (channel : GoString) (cs : ChannelState) (m : Assoc ChannelState)
    → lookup channel m ≡ some cs
    → Has n str (subscribers cs.subs)
    → Has n str (all_subscribers m)
unfolding lookup
Has-all_subscribers n str channel cs [] e h = absurd (ground arith)
Has-all_subscribers n str channel cs ((name, c) ∷ m) e h = elim (Bool-cases (beq name channel)) [
  | inl b ↦
      let q : c ≡ cs = ground (arith, e, b) in
      Has-append n str (subscribers c.subs) (all_subscribers m)
        (inl (subst (λ (x : ChannelState). Has n str (subscribers x.subs)) (sym q) h))
  | inr b ↦
      Has-append n str (subscribers c.subs) (all_subscribers m)
        (inr (Has-all_subscribers n str channel cs m (ground (arith, e, b)) h))
]
