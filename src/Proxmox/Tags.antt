-- ===== src/Proxmox/Tags.antt =====
-- internal/proxmox/vm.go: the text form of a tag list.
use mathlib.Core.List.{append_assoc, append-nil}
use proxmox_actions_runners.Prelude.{
  ℕ, ◌≡◌, refl, ◌∙◌, ap, Bool, false, ◌||◌, List, [], ◌∷◌, ◌++◌, Text, if◌then◌else◌, nat_beq,
}

-- What separates tags: a semicolon, a comma or a space.
abbrev is_separator : ℕ → Bool
is_separator r = nat_beq r b';' || (nat_beq r b',' || nat_beq r 32)

abbrev pub field_of : Text → List Text
field_of [] = []
field_of (c ∷ s) = (c ∷ s) ∷ []

-- `strings.FieldsFunc`: the fields of a text that goes on after `current`.
pub fields_func : (ℕ → Bool) → (current s : Text) → List Text
fields_func sep current [] = field_of current
fields_func sep current (c ∷ s) =
    let rest = fields_func sep (if sep c then [] else current ++ c ∷ []) s in
    if sep c then field_of current ++ rest else rest

unfoldable pub parse_tags : Text → List Text
unfolding fields_func
parse_tags s = fields_func is_separator [] s

unfoldable pub format_tags : List Text → Text
format_tags [] = []
format_tags (t ∷ []) = t
format_tags (t ∷ u ∷ ts) = t ++ b';' ∷ format_tags (u ∷ ts)

-- A text with no separator in it.
abbrev pub IsPlain : Text → Type 0
IsPlain [] = Unit {0}
IsPlain (c ∷ s) = (is_separator c ≡ false) × IsPlain s

abbrev pub IsTag : Text → Type 0
IsTag [] = ⊥
IsTag (c ∷ s) = IsPlain (c ∷ s)

abbrev pub AllTags : List Text → Type 0
AllTags [] = Unit {0}
AllTags (t ∷ ts) = IsTag t × AllTags ts

-- A plain text joins the field that is being read.
fields_func-plain :
    (current t rest : Text)
    → IsPlain t
    → fields_func is_separator current (t ++ rest) ≡ fields_func is_separator (current ++ t) rest
unfolding fields_func
fields_func-plain current [] rest h = rw (append-nil current)
fields_func-plain current (c ∷ t) rest h = rw h.0 (
    fields_func-plain (current ++ c ∷ []) t rest h.1
    ∙ ap (λ u. fields_func is_separator u rest) (append_assoc current (c ∷ []) t))

fields_func-cons :
    (t : Text) (rest : Text)
    → IsTag t
    → fields_func is_separator t (b';' ∷ rest) ≡ t ∷ fields_func is_separator [] rest
unfolding fields_func
fields_func-cons [] rest h = elim h [ ]
fields_func-cons (c ∷ t) rest h = refl

IsTag-IsPlain : (t : Text) → IsTag t → IsPlain t
IsTag-IsPlain [] h = elim h [ ]
IsTag-IsPlain (c ∷ t) h = h

field_of-tag : (t : Text) → IsTag t → field_of t ≡ t ∷ []
field_of-tag [] h = elim h [ ]
field_of-tag (c ∷ t) h = refl

-- Reading a list of tags that was joined gives the list back, if every tag is non-empty and holds
-- no separator.
pub parse_tags-format_tags : (ts : List Text) → AllTags ts → parse_tags (format_tags ts) ≡ ts
unfolding parse_tags format_tags
parse_tags-format_tags [] h = refl
parse_tags-format_tags (t ∷ []) h =
    rw (← append-nil t)
      (fields_func-plain [] t [] (IsTag-IsPlain t h.0) ∙ rw (append-nil t) (field_of-tag t h.0))
parse_tags-format_tags (t ∷ u ∷ ts) h =
    fields_func-plain [] t (b';' ∷ format_tags (u ∷ ts)) (IsTag-IsPlain t h.0)
    ∙ fields_func-cons t (format_tags (u ∷ ts)) h.0
    ∙ ap (◌∷◌ t) (parse_tags-format_tags (u ∷ ts) h.1)
