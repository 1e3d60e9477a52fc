-- ===== src/MessageDefinitions/Halves.antt =====
-- split_service_definition takes apart what its separator joins.
use Prim.Native.Char.{code}
use Prim.Native.String.{◌++◌ as append}
use text.Mathlib.TextLemmas.{nil-append, cons-append, append-nil, append_assoc}
use co_bridge.Base.{
  ℕ, ◌≡◌, refl, sym, ap, ◌∙◌, String, List, [], ◌∷◌, ◌++◌, true, false, ◌||◌, nat_eq, ◌==◌,
  text_keys, All, All-append, All-map, arith,
}
use co_bridge.Base.Action.{returned}
use co_bridge.Base.Text.{has_code, join, split_string, split_string-join, newline}
use co_bridge.MessageDefinitions.Sections.{
  ◌+++◌, replace_crlf, replace_cr, separator, collect_sections, is_single_other, sections_of,
  split_service_definition,
}

replace_crlf_self : (s : String) → has_code 13 s ≡ false → replace_crlf s ≡ s
unfolding replace_crlf has_code
replace_crlf_self String.[] h = refl
replace_crlf_self (String.◌∷◌ c s) h =
    let a : nat_eq (code c) 13 ≡ false = ground arith in
    let b : has_code 13 s ≡ false = ground arith in rw a (ap (String.◌∷◌ c) (replace_crlf_self s b))

replace_cr_self : (s : String) → has_code 13 s ≡ false → replace_cr s ≡ s
unfolding replace_cr has_code
replace_cr_self String.[] h = refl
replace_cr_self (String.◌∷◌ c s) h =
    let a : nat_eq (code c) 13 ≡ false = ground arith in
    let b : has_code 13 s ≡ false = ground arith in rw a (ap (String.◌∷◌ c) (replace_cr_self s b))

has_code-append : (n : ℕ) (s t : String) → has_code n (s +++ t) ≡ (has_code n s || has_code n t)
unfolding has_code
has_code-append n String.[] t = ap (has_code n) (nil-append t)
has_code-append n (String.◌∷◌ c s) t =
    ap (has_code n) (cons-append c s t) ∙ unfold has_code in ground (arith, has_code-append n s t)

has_code-join :
    (ls : List String) → All (λ l. has_code 13 l ≡ false) ls → has_code 13 (join newline ls) ≡ false
unfolding join
has_code-join [] h = unfold has_code in refl
has_code-join (l ∷ []) h = h.0
has_code-join (l ∷ m ∷ ls) h =
    let n : has_code 13 newline ≡ false = unfold has_code in refl in
    let a = has_code-append 13 l (append newline (join newline (m ∷ ls))) in
    let b = has_code-append 13 newline (join newline (m ∷ ls)) in
    rw (a, b, h.0, n, has_code-join (m ∷ ls) h.1) refl

-- A line of a section.
pub record IsLine (l : String) : Type 0 where
  pub unbroken : has_code 10 l ≡ false
  pub no_return : has_code 13 l ≡ false
  pub other : (l == separator) ≡ false

-- Each line with a line break behind it.
unfoldable pub unlines : List String → String
unlines [] = ""
unlines (l ∷ ls) = l +++ newline +++ unlines ls

add_line :
    (t l : String) (ls : List String)
    → (t +++ (l +++ newline)) +++ unlines ls ≡ t +++ unlines (l ∷ ls)
unfolding unlines
add_line t l ls =
    append_assoc t (append l newline) (unlines ls)
    ∙ ap (append t) (append_assoc l newline (unlines ls))

collect_response :
    (resps : List String) (request response : String)
    → All IsLine resps
    → collect_sections false resps (request, response) ≡ (request, response +++ unlines resps)
unfolding collect_sections
collect_response [] request response h =
    ap (λ t. (request, t)) (sym (append-nil response)) ∙ unfold unlines in refl
collect_response (l ∷ ls) request response h = rw (h.0.other) (
    collect_response ls request (response +++ l +++ newline) h.1
    ∙ ap (λ t. (request, t)) (add_line response l ls))

collect_both :
    (reqs resps : List String) (request : String)
    → All IsLine reqs
    → All IsLine resps
    → collect_sections true (reqs ++ (separator ∷ resps)) (request, "")
      ≡ (request +++ unlines reqs, unlines resps)
unfolding collect_sections
collect_both [] resps request h k =
    collect_response resps request "" k
    ∙ ap (λ t. (request, t)) (nil-append (unlines resps))
    ∙ ap (λ t. (t, unlines resps)) (sym (append-nil request))
    ∙ unfold unlines in refl
collect_both (l ∷ ls) resps request h k = rw (h.0.other) (
    collect_both ls resps (request +++ l +++ newline) h.1 k
    ∙ ap (λ t. (t, unlines resps)) (add_line request l ls))

-- The text of a service with the given lines before and after the separator.
abbrev pub service_text : List String → List String → String
service_text reqs resps = join newline (reqs ++ (separator ∷ resps))

split_lines :
    (ls : List String) (l : String) (ms : List String)
    → All (λ m. has_code 10 m ≡ false) (ls ++ (l ∷ ms))
    → split_string (join newline (ls ++ (l ∷ ms))) newline ≡ ls ++ (l ∷ ms)
split_lines [] l ms h = split_string-join l ms h
split_lines (k ∷ ls) l ms h = split_string-join k (ls ++ (l ∷ ms)) h

not_single : (reqs resps : List String) → is_single_other (reqs ++ (separator ∷ resps)) ≡ false
not_single [] [] = refl
not_single [] (r ∷ resps) = refl
not_single (l ∷ []) resps = refl
not_single (l ∷ m ∷ ls) resps = refl

sections_of_both :
    (whole : String) (reqs resps : List String)
    → All IsLine reqs
    → All IsLine resps
    → sections_of whole (reqs ++ (separator ∷ resps)) ≡ returned (unlines reqs, unlines resps)
unfolding sections_of
sections_of_both whole reqs resps h k = rw (not_single reqs resps) (
    ap returned
      (collect_both reqs resps "" h k ∙ ap (λ t. (t, unlines resps)) (nil-append (unlines reqs))))

-- A definition that has a separator between lines with neither breaks nor separators among them is split
-- into the lines before and those after it, each with a line break behind it.
pub split_service_definition-join :
    (reqs resps : List String)
    → All IsLine reqs
    → All IsLine resps
    → split_service_definition (service_text reqs resps) ≡ returned (unlines reqs, unlines resps)
unfolding split_service_definition
split_service_definition-join reqs resps h k =
    let no_return = has_code-join (reqs ++ (separator ∷ resps)) (
      All-append (λ l. has_code 13 l ≡ false) reqs (separator ∷ resps)
        (All-map IsLine _ reqs (λ l g. g.no_return) h)
        (unfold has_code in refl, All-map IsLine _ resps (λ l g. g.no_return) k)) in
    let unbroken =
      All-append (λ l. has_code 10 l ≡ false) reqs (separator ∷ resps)
        (All-map IsLine _ reqs (λ l g. g.unbroken) h)
        (unfold has_code in refl, All-map IsLine _ resps (λ l g. g.unbroken) k) in
    let normal = replace_crlf_self (service_text reqs resps) no_return in
    let normal' = replace_cr_self (service_text reqs resps) no_return in
    ap (λ t. sections_of (service_text reqs resps) (split_string t newline))
      (ap replace_cr normal ∙ normal')
    ∙ ap (sections_of (service_text reqs resps)) (split_lines reqs separator resps unbroken)
    ∙ sections_of_both (service_text reqs resps) reqs resps h k
