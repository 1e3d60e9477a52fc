-- ===== src/Base/Text.antt =====
-- Functions of std::string, by recursion on the characters.
use Prim.Native.Nat.{ℕ, zero, suc, ◌-◌, ◌≤◌, Ordering}
use Prim.Native.Char.{Char, code}
use Prim.Native.String.{String, ◌++◌, compare}
use mathlib.Core.Path.{◌≡◌, refl, ap, sym, ◌∙◌}
use mathlib.Core.Logic.{inl, inr}
use mathlib.Core.Bool.{Bool, true, false, ◌&&◌, ◌||◌}
use mathlib.Core.List.{List, [], ◌∷◌}
use native.Mathlib.Omega.{arith}
use text.Mathlib.TextEquality.{Char-path}
use text.Mathlib.TextLemmas.{nil-append, cons-append}
use co_bridge.Base.Lists.{All}
use co_bridge.Base.Tests.{nat_eq, nat_eq_iff, if◌then◌else◌, Bool-cases}

unfoldable pub begins_with : String → String → Bool
begins_with String.[] s = true
begins_with (String.◌∷◌ d ds) String.[] = false
begins_with (String.◌∷◌ d ds) (String.◌∷◌ c cs) = nat_eq (code d) (code c) && begins_with ds cs

-- `s.find(d) != npos`
unfoldable pub has_part : String → String → Bool
unfolding begins_with
has_part String.[] d = begins_with d String.[]
has_part (String.◌∷◌ c s) d = begins_with d (String.◌∷◌ c s) || has_part s d

unfoldable pub size : String → ℕ
size String.[] = 0
size (String.◌∷◌ c s) = suc (size s)

unfoldable pub drop_chars : ℕ → String → String
drop_chars zero s = s
drop_chars (suc n) String.[] = String.[]
drop_chars (suc n) (String.◌∷◌ c s) = drop_chars n s

abbrev pub more_pieces : (String × List String) → List String
more_pieces (p, ps) = p ∷ ps

abbrev pub longer_piece : Char → (String × List String) → String × List String
longer_piece c (p, ps) = (String.◌∷◌ c p, ps)

-- The first piece before the delimiter and the others; the first `n` characters, the rest of a
-- delimiter that was found, are passed over.
unfoldable pub pieces : String → ℕ → String → String × List String
pieces d n String.[] = (String.[], [])
pieces d (suc n) (String.◌∷◌ c s) = pieces d n s
pieces d zero (String.◌∷◌ c s) =
    let found = pieces d (size d - 1) s in
    let longer = pieces d zero s in
    if begins_with d (String.◌∷◌ c s) then (String.[], more_pieces found) else longer_piece c longer

-- The pieces with the delimiter between them.
unfoldable pub join : String → List String → String
join d [] = ""
join d (p ∷ []) = p
join d (p ∷ q ∷ ps) = p ++ (d ++ join d (q ∷ ps))

pub begins_with-drop_chars :
    (d s : String) → begins_with d s ≡ true → d ++ drop_chars (size d) s ≡ s
unfolding begins_with drop_chars size
begins_with-drop_chars String.[] s h = nil-append s
begins_with-drop_chars (String.◌∷◌ d ds) String.[] h = cc
begins_with-drop_chars (String.◌∷◌ d ds) (String.◌∷◌ c cs) h =
    let same : nat_eq (code d) (code c) ≡ true = ground arith in
    let e : d ≡ c = Char-path d c ((nat_eq_iff _ _).0 same) in
    let r : begins_with ds cs ≡ true = ground arith in
    cons-append d ds (drop_chars (size ds) cs)
    ∙ (λ i. String.◌∷◌ (e i) (begins_with-drop_chars ds cs r i))

abbrev pub split_string : String → String → List String
split_string s d = more_pieces (pieces d 0 s)

join-more_pieces_empty :
    (d : String) (r : String × List String)
    → join d (String.[] ∷ more_pieces r) ≡ d ++ join d (more_pieces r)
unfolding join
join-more_pieces_empty d (p, ps) = nil-append _

join-longer_piece :
    (d : String) (c : Char) (r : String × List String)
    → join d (more_pieces (longer_piece c r)) ≡ String.◌∷◌ c (join d (more_pieces r))
unfolding join
join-longer_piece d c (p, []) = refl
join-longer_piece d c (p, (q ∷ ps)) = cons-append c p _

-- Whatever is passed over, the pieces join to the rest.
join-pieces :
    (d : String) (n : ℕ) (s : String)
    → 1 ≤ size d
    → join d (more_pieces (pieces d n s)) ≡ drop_chars n s
unfolding pieces drop_chars
join-pieces d zero String.[] h = unfold join in refl
join-pieces d (suc n) String.[] h = unfold join in refl
join-pieces d (suc n) (String.◌∷◌ c s) h = join-pieces d n s h
join-pieces d zero (String.◌∷◌ c s) h = elim (Bool-cases (begins_with d (String.◌∷◌ c s))) [
  | inl b ↦
      let e : size d ≡ suc (size d - 1) = omega arith in
      rw b (
        join-more_pieces_empty d (pieces d (size d - 1) s)
        ∙ ap (λ t. d ++ t) (join-pieces d (size d - 1) s h)
        ∙ ap (λ (n : ℕ). d ++ drop_chars n (String.◌∷◌ c s)) (sym e)
        ∙ begins_with-drop_chars d (String.◌∷◌ c s) b)
  | inr b ↦ rw b (join-longer_piece d c (pieces d 0 s) ∙ ap (String.◌∷◌ c) (join-pieces d zero s h))
]

-- Joining what a text was split into gives the text.
pub join-split_string : (s d : String) → 1 ≤ size d → join d (split_string s d) ≡ s
join-split_string s d h = join-pieces d zero s h ∙ unfold drop_chars in refl

-- A line break stands nowhere in the text.
unfoldable pub has_code : ℕ → String → Bool
has_code n String.[] = false
has_code n (String.◌∷◌ c s) = nat_eq (code c) n || has_code n s

pieces-line :
    (l s : String)
    → has_code 10 l ≡ false
    → pieces "\n" 0 (l ++ ("\n" ++ s)) ≡ (l, more_pieces (pieces "\n" 0 s))
unfolding has_code pieces begins_with size
pieces-line String.[] s h =
    rw (nil-append ("\n" ++ s), cons-append _ _ _)
      (ap (λ t. (String.[], more_pieces (pieces "\n" 0 t))) (nil-append s))
pieces-line (String.◌∷◌ c l) s h =
    let a : nat_eq 10 (code c) ≡ false = ground arith in
    let b : has_code 10 l ≡ false = ground arith in
    rw (cons-append c l ("\n" ++ s), a) (ap (longer_piece c) (pieces-line l s b))

pieces-last_line : (l : String) → has_code 10 l ≡ false → pieces "\n" 0 l ≡ (l, [])
unfolding has_code pieces begins_with size
pieces-last_line String.[] h = refl
pieces-last_line (String.◌∷◌ c l) h =
    let a : nat_eq 10 (code c) ≡ false = ground arith in
    let b : has_code 10 l ≡ false = ground arith in
    rw a (ap (longer_piece c) (pieces-last_line l b))

-- Splitting joined lines at the line breaks gives the lines.
pub split_string-join :
    (l : String) (ls : List String)
    → All (λ p. has_code 10 p ≡ false) (l ∷ ls)
    → split_string (join "\n" (l ∷ ls)) "\n" ≡ l ∷ ls
unfolding join
split_string-join l [] h = ap more_pieces (pieces-last_line l h.0)
split_string-join l (q ∷ ls) h =
    ap more_pieces (pieces-line l (join "\n" (q ∷ ls)) h.0)
    ∙ ap (λ v. l ∷ v) (split_string-join q ls h.1)

abbrev pub newline : String
newline = "\n"

-- `s.substr(0, n)`
unfoldable pub take_chars : ℕ → String → String
take_chars zero s = ""
take_chars (suc n) String.[] = ""
take_chars (suc n) (String.◌∷◌ c s) = String.◌∷◌ c (take_chars n s)

-- `insert` of a std::set<std::string>, which is iterated in the order of the texts.
unfoldable pub insert_sorted : String → List String → List String
insert_sorted t [] = t ∷ []
insert_sorted t (x ∷ xs) = elim (compare t x) [
  | Ordering.lt ↦ t ∷ x ∷ xs
  | Ordering.eq ↦ x ∷ xs
  | Ordering.gt ↦ x ∷ insert_sorted t xs
]
