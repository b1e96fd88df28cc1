-- ===== src/Links/Ring.antt =====
-- What it means that the nodes of a list hang together: segments, rings, and what keeps them.
use chestnut.Base.{
  ℕ, ◌≡◌, refl, ◌≢◌, true, false, List, [], ◌∷◌, ◌++◌, arith, has, Distinct, has-append,
}
use chestnut.Links.{Links}

-- From `a` the `next` pointers lead through `xs` to `b`, and the `prev` pointers lead back.
abbrev pub Chain : Links → ℕ → List ℕ → ℕ → Type 0
Chain s a [] b = (s.next a ≡ b) × (s.prev b ≡ a)
Chain s a (x ∷ xs) b = (s.next a ≡ x) × (s.prev x ≡ a) × Chain s x xs b

-- The list with head `h` holds the nodes `xs`, in order and each once.
pub record IsRing (s : Links) (h : ℕ) (xs : List ℕ) : Type 0 where
  pub chain : Chain s h xs h
  pub distinct : Distinct (h ∷ xs)

-- A segment survives any change that spares the fields it rests on.
pub Chain-frame :
    (s t : Links) (a : ℕ) (xs : List ℕ) (b : ℕ)
    → ((x : ℕ) → has x (a ∷ xs) ≡ true → t.next x ≡ s.next x)
    → ((x : ℕ) → has x (xs ++ b ∷ []) ≡ true → t.prev x ≡ s.prev x)
    → Chain s a xs b
    → Chain t a xs b
Chain-frame s t a [] b sn sp c = ground (arith, sn a, sp b)
Chain-frame s t a (x ∷ xs) b sn sp c = (
  ground (arith, sn a),
  ground (arith, sp x),
  Chain-frame s t x xs b (λ y i. sn y (ground arith)) (λ y i. sp y (ground arith)) c.2,
)

pub Chain-append :
    (s : Links) (a : ℕ) (xs : List ℕ) (n : ℕ) (ys : List ℕ) (b : ℕ)
    → Chain s a xs n
    → Chain s n ys b
    → Chain s a (xs ++ n ∷ ys) b
Chain-append s a [] n ys b c d = (c.0, c.1, d)
Chain-append s a (x ∷ xs) n ys b c d = (c.0, c.1, Chain-append s x xs n ys b c.2 d)

pub Chain-split :
    (s : Links) (a : ℕ) (xs : List ℕ) (n : ℕ) (ys : List ℕ) (b : ℕ)
    → Chain s a (xs ++ n ∷ ys) b
    → Chain s a xs n × Chain s n ys b
Chain-split s a [] n ys b c = ((c.0, c.1), c.2)
Chain-split s a (x ∷ xs) n ys b c = let r = Chain-split s x xs n ys b c.2 in ((c.0, c.1, r.0), r.1)

-- The node before the end of a segment is one of the segment.
pub prev-Chain :
    (s : Links) (a : ℕ) (xs : List ℕ) (b : ℕ) → Chain s a xs b → has (s.prev b) (a ∷ xs) ≡ true
prev-Chain s a [] b c = ground arith
prev-Chain s a (x ∷ xs) b c = ground (arith, prev-Chain s x xs b c.2)

-- And so is the node behind its start.
pub next-Chain :
    (s : Links) (a : ℕ) (xs : List ℕ) (b : ℕ)
    → Chain s a xs b
    → has (s.next a) (xs ++ b ∷ []) ≡ true
next-Chain s a [] b c = ground arith
next-Chain s a (x ∷ xs) b c = ground arith

-- Two nodes of which one is in a list and the other is not.
pub ne_of_has : (a b : ℕ) (xs : List ℕ) → has a xs ≡ true → has b xs ≡ false → a ≢ b
ne_of_has a b xs p q = λ e. cc

-- Distinctness of a list with a middle.
pub Distinct-split :
    (xs : List ℕ) (n : ℕ) (ys : List ℕ)
    → Distinct (xs ++ n ∷ ys)
    → Distinct (xs ++ ys) × (has n xs ≡ false) × (has n ys ≡ false)
Distinct-split [] n ys d = (d.1, refl, d.0)
Distinct-split (x ∷ xs) n ys d =
    let r = Distinct-split xs n ys d.1 in
    let e = has-append x xs (n ∷ ys) in
    let f = has-append x xs ys in ((ground arith, r.0), ground arith, r.2)

pub Distinct-snoc : (xs : List ℕ) (n : ℕ) → Distinct xs → has n xs ≡ false → Distinct (xs ++ n ∷ [])
Distinct-snoc [] n d f = (refl, tt)
Distinct-snoc (x ∷ xs) n d f =
    (ground (arith, has-append x xs (n ∷ [])), Distinct-snoc xs n d.1 (ground arith))

-- The two parts of a list without repetition share nothing.
pub Distinct-disjoint :
    (xs ys : List ℕ) (a : ℕ) → Distinct (xs ++ ys) → has a xs ≡ true → has a ys ≡ false
Distinct-disjoint [] ys a d i = cc
Distinct-disjoint (x ∷ xs) ys a d i =
    ground (arith, has-append x xs ys, Distinct-disjoint xs ys a d.1)

pub Distinct-prefix : (xs ys : List ℕ) → Distinct (xs ++ ys) → Distinct xs
Distinct-prefix [] ys d = tt
Distinct-prefix (x ∷ xs) ys d = (ground (arith, has-append x xs ys), Distinct-prefix xs ys d.1)

pub Distinct-suffix : (xs ys : List ℕ) → Distinct (xs ++ ys) → Distinct ys
Distinct-suffix [] ys d = d
Distinct-suffix (x ∷ xs) ys d = Distinct-suffix xs ys d.1

-- Redirect the end of a segment: only its last `next` field changes, and the new end points back.
pub Chain-retarget :
    (s t : Links) (a : ℕ) (xs : List ℕ) (b n : ℕ)
    → Distinct (a ∷ xs)
    → t.next (s.prev b) ≡ n
    → t.prev n ≡ s.prev b
    → ((x : ℕ) → has x (a ∷ xs) ≡ true → s.prev b ≢ x → t.next x ≡ s.next x)
    → ((x : ℕ) → has x xs ≡ true → t.prev x ≡ s.prev x)
    → Chain s a xs b
    → Chain t a xs n
Chain-retarget s t a [] b n d tn tp sn sp c = ground arith
Chain-retarget s t a (x ∷ xs) b n d tn tp sn sp c = (
  ground (arith, sn a, prev-Chain s x xs b c.2),
  ground (arith, sp x),
  Chain-retarget s t x xs b n d.1 tn tp (λ y i. sn y (ground arith)) (λ y i. sp y (ground arith))
      c.2,
)

-- No node is in both lists.
abbrev pub Disjoint : List ℕ → List ℕ → Type 0
Disjoint xs ys = (a : ℕ) → has a xs ≡ true → has a ys ≡ false

-- A ring survives any change that spares the fields of its own nodes.
pub IsRing-frame :
    (s t : Links) (h : ℕ) (xs : List ℕ)
    → ((x : ℕ) → has x (h ∷ xs) ≡ true → t.next x ≡ s.next x)
    → ((x : ℕ) → has x (h ∷ xs) ≡ true → t.prev x ≡ s.prev x)
    → IsRing s h xs
    → IsRing t h xs
IsRing-frame s t h xs sn sp r = record {
  chain =
      Chain-frame s t h xs h sn (λ x i. sp x (ground (arith, has-append x xs (h ∷ [])))) r.chain;
  distinct = r.distinct;
}
