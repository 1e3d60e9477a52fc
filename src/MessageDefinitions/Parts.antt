-- ===== src/MessageDefinitions/Parts.antt =====
-- Texts that stand in other texts.
use text.Mathlib.TextLemmas.{append-nil, nil-append, append_assoc}
use co_bridge.Base.{◌≡◌, refl, sym, ap, ◌∙◌, String}
use co_bridge.MessageDefinitions.Sections.{◌+++◌}

pub record IsPart (part whole : String) : Type 0 where
  pub before : String
  pub after : String
  pub place : whole ≡ before +++ part +++ after

pub record StartsWith (part whole : String) : Type 0 where
  pub rest : String
  pub place : whole ≡ part +++ rest

pub StartsWith-refl : (s : String) → StartsWith s s
StartsWith-refl s = record { rest = ""; place = sym (append-nil s) }

pub StartsWith-trans : (r s t : String) → StartsWith r s → StartsWith s t → StartsWith r t
StartsWith-trans r s t a b = record {
  rest = a.rest +++ b.rest;
  place = b.place ∙ ap (λ x. x +++ b.rest) a.place ∙ append_assoc r a.rest b.rest;
}

pub StartsWith-append : (s t : String) → StartsWith s (s +++ t)
StartsWith-append s t = record { rest = t; place = refl }

-- What stands in the start of a text stands in the text.
pub IsPart-StartsWith : (p s t : String) → IsPart p s → StartsWith s t → IsPart p t
IsPart-StartsWith p s t h k = record {
  before = h.before;
  after = h.after +++ k.rest;
  place =
      k.place
      ∙ ap (λ x. x +++ k.rest) h.place
      ∙ append_assoc h.before (p +++ h.after) k.rest
      ∙ ap (λ x. h.before +++ x) (append_assoc p h.after k.rest);
}

pub IsPart-prepend : (p s t : String) → IsPart p t → IsPart p (s +++ t)
IsPart-prepend p s t h = record {
  before = s +++ h.before;
  after = h.after;
  place = ap (λ x. s +++ x) h.place ∙ sym (append_assoc s h.before (p +++ h.after));
}

-- A text that starts with another, behind a head.
pub IsPart-head : (head s t : String) → StartsWith s t → IsPart (head +++ s) (head +++ t)
IsPart-head head s t h = record {
  before = "";
  after = h.rest;
  place =
      ap (λ x. head +++ x) h.place
      ∙ sym (append_assoc head s h.rest)
      ∙ sym (nil-append ((head +++ s) +++ h.rest));
}
