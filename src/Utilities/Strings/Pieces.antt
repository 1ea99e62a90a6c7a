-- ===== src/Utilities/Strings/Pieces.antt =====
-- Texts that are split at a character.
use azure_client_tools.Base.{
  ap, length-append, ℕ, ◌<◌, ◌≡◌, refl, sym, subst, ◌∙◌, false, [], ◌∷◌, ◌++◌, append_assoc,
  append-nil, Text, length, ◌==◌, arith,
}
use azure_client_tools.Utilities.Strings.Numerals.{length-padded, AllDigits, padded-AllDigits}
use azure_client_tools.Utilities.Strings.{padded, is_digit, split_item, split_string}

-- A text without a character.
abbrev pub Avoids : ℕ → Text → Type 0
Avoids d [] = Unit
Avoids d (c ∷ s) = ((c == d) ≡ false) × Avoids d s

pub append-Avoids : (d : ℕ) (s t : Text) → Avoids d s → Avoids d t → Avoids d (s ++ t)
append-Avoids d [] t a b = b
append-Avoids d (c ∷ s) t a b = (a.0, append-Avoids d s t (a.1) b)

pub AllDigits-Avoids : (d : ℕ) (s : Text) → is_digit d ≡ false → AllDigits s → Avoids d s
AllDigits-Avoids d [] h a = tt
AllDigits-Avoids d (c ∷ s) h (a, b) = (ground arith, AllDigits-Avoids d s h b)

pub padded-Avoids : (d w n : ℕ) → is_digit d ≡ false → Avoids d (padded w n)
padded-Avoids d w n h = AllDigits-Avoids d (padded w n) h (padded-AllDigits w n)

-- An item up to a delimiter, and the last one.
split_item-delimiter :
    (d : ℕ) (item s rest : Text)
    → Avoids d s
    → split_item d item (s ++ d ∷ rest) ≡ (item ++ s) ∷ split_item d [] rest
unfolding split_item
split_item-delimiter d item [] rest a = ground (arith, append-nil item)
split_item-delimiter d item (c ∷ s) rest (a, b) =
    rw a (split_item-delimiter d (item ++ c ∷ []) s rest b ∙ rw append_assoc refl)

split_item_last :
    (d : ℕ) (item s : Text)
    → Avoids d s
    → 0 < length (item ++ s)
    → split_item d item s ≡ (item ++ s) ∷ []
unfolding split_item
split_item_last d item [] a h = ground (arith, append-nil item, h)
split_item_last d item (c ∷ s) (a, b) h = rw a (
    split_item_last d (item ++ c ∷ []) s b
      (subst (λ t. 0 < length t) (sym (append_assoc item (c ∷ []) s)) h)
    ∙ rw append_assoc refl)

pub split_string-delimiter :
    (d : ℕ) (s rest : Text) → Avoids d s → split_string d (s ++ d ∷ rest) ≡ s ∷ split_string d rest
unfolding split_string
split_string-delimiter d s rest a = split_item-delimiter d [] s rest a

pub split_string_last : (d : ℕ) (s : Text) → Avoids d s → 0 < length s → split_string d s ≡ s ∷ []
unfolding split_string
split_string_last d s a h = split_item_last d [] s a h

-- Three numbers with a separator.
abbrev pub three : ℕ → Text → Text → Text → Text
three d a b c = a ++ (d ∷ (b ++ (d ∷ c)))

abbrev pub numbers : ℕ → ℕ → ℕ → ℕ → ℕ → ℕ → Text
numbers d width others a b c = three d (padded width a) (padded others b) (padded others c)

pub split_string-numbers :
    (d width others a b c : ℕ)
    → is_digit d ≡ false
    → split_string d (numbers d width others a b c)
      ≡ padded width a ∷ padded others b ∷ padded others c ∷ []
split_string-numbers d width others a b c h =
    split_string-delimiter d (padded width a) (padded others b ++ (d ∷ padded others c))
      (padded-Avoids d width a h)
    ∙ ap (λ r. padded width a ∷ r)
        (split_string-delimiter d (padded others b) (padded others c) (padded-Avoids d others b h)
          ∙ ap (λ r. padded others b ∷ r)
              (split_string_last d (padded others c) (padded-Avoids d others c h)
                (length-padded others c)))

pub numbers-Avoids :
    (e d width others a b c : ℕ)
    → is_digit e ≡ false
    → (d == e) ≡ false
    → Avoids e (numbers d width others a b c)
numbers-Avoids e d width others a b c h ne =
    append-Avoids e (padded width a) (d ∷ (padded others b ++ (d ∷ padded others c)))
      (padded-Avoids e width a h)
      (
        ne,
        append-Avoids e (padded others b) (d ∷ padded others c) (padded-Avoids e others b h)
            (ne, padded-Avoids e others c h),
      )

pub length-numbers : (d width others a b c : ℕ) → 0 < length (numbers d width others a b c)
length-numbers d width others a b c =
    omega (arith, length-append (padded width a) (d ∷ (padded others b ++ (d ∷ padded others c))))
