-- ===== src/HttpServer/Paths.antt =====
-- The path of a request is found, whatever follows it.
use Prim.Native.Nat.{◌≤◌}
use Prim.Native.Char.{Char, code}
use Prim.Native.String.{◌++◌}
use text.Mathlib.TextLemmas.{nil-append, cons-append}
use co_bridge.Base.{
  String, ◌≡◌, refl, sym, ap, ◌∙◌, true, false, some, nat_eq, nat_eq_iff, leb, arith, if◌then◌else◌,
  text_keys,
}
use co_bridge.Base.Text.{begins_with, drop_chars, size, has_code}
use co_bridge.HttpServer.{
  text_after, text_before, longer, respond, answer, answer_rest, answer_get, answer_path,
}

begins_with-append : (d s : String) → begins_with d (d ++ s) ≡ true
unfolding begins_with
begins_with-append String.[] s = refl
begins_with-append (String.◌∷◌ c d) s =
    rw (cons-append c d s, (nat_eq_iff (code c) (code c)).1 refl) (begins_with-append d s)

drop_chars-append : (d s : String) → drop_chars (size d) (d ++ s) ≡ s
unfolding drop_chars size
drop_chars-append String.[] s = nil-append s
drop_chars-append (String.◌∷◌ c d) s = rw (cons-append c d s) (drop_chars-append d s)

text_before-append :
    (path rest : String)
    → has_code 32 path ≡ false
    → text_before " HTTP/" (path ++ (" HTTP/" ++ rest)) ≡ some path
unfolding has_code text_before begins_with
text_before-append String.[] rest h =
    rw (nil-append (" HTTP/" ++ rest), cons-append _ _ _)
      (rw (begins_with-append "HTTP/" rest) refl)
text_before-append (String.◌∷◌ c path) rest h =
    let a : nat_eq 32 (code c) ≡ false = ground arith in
    let b : has_code 32 path ≡ false = ground arith in
    rw (cons-append c path (" HTTP/" ++ rest), a)
      (ap (longer (String.◌∷◌ c)) (text_before-append path rest b))

text_after-append :
    (c : Char) (d s : String) → text_after (String.◌∷◌ c d) (String.◌∷◌ c d ++ s) ≡ some s
unfolding text_after
text_after-append c d s =
    let whole = String.◌∷◌ c d in
    let e = cons-append c d s in
    let a : begins_with whole (String.◌∷◌ c (d ++ s)) ≡ true =
      ap (begins_with whole) (sym e) ∙ begins_with-append whole s in
    let b : drop_chars (size whole) (String.◌∷◌ c (d ++ s)) ≡ s =
      ap (drop_chars (size whole)) (sym e) ∙ drop_chars-append whole s in
    ap (text_after whole) e
    ∙ ap
        (λ t.
          if t
          then some (drop_chars (size whole) (String.◌∷◌ c (d ++ s)))
          else text_after whole (d ++ s))
        a
    ∙ ap some b

-- A request that begins with GET and a path without a space, which HTTP/ follows, is answered by the path: a
-- path that is not empty gets what respond does for it, whatever the rest of the request is.
pub answer-respond :
    (json_str path rest : String)
    → has_code 32 path ≡ false
    → 1 ≤ size path
    → answer json_str ("GET " ++ (path ++ (" HTTP/" ++ rest))) ≡ respond json_str path
unfolding answer answer_rest answer_get answer_path
answer-respond json_str path rest h k =
    let f : leb 1 (size path) ≡ true = ground arith in
    ap (answer_rest json_str) (text_after-append _ "ET " (path ++ (" HTTP/" ++ rest)))
    ∙ ap (answer_get json_str) (text_before-append path rest h)
    ∙ ap (λ b. if b then respond json_str path else answer_path json_str "") f
