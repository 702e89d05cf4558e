-- ===== src/Evaluate/Context/StableKey.antt =====
-- request.rs, `stable_key`: one text for a context, whatever the order of its insertions.
use trustgrant.Prelude.{
  ℕ, zero, suc, ◌+◌, Bool, true, false, ◌||◌, ◌&&◌, List, [], ◌∷◌, ◌++◌, if◌then◌else◌, ltb, eqb,
}
use trustgrant.Prelude.Text.{Text, byte_len}
use trustgrant.Evaluate.Context.{SelectorContext, SelectorValues}
use Prim.Native.Nat.{◌/◌, ◌%◌}

-- `usize::to_string`, on fuel.
unfoldable pub decimal_digits : ℕ → ℕ → Text
decimal_digits zero n = []
decimal_digits (suc fuel) n =
    let rest = decimal_digits fuel (n / 10) in
    if ltb n 10 then (b'0' + n) ∷ [] else rest ++ (b'0' + n % 10) ∷ []

-- As many rounds as the number, and one, are enough.
unfoldable pub decimal : ℕ → Text
unfolding decimal_digits
decimal n = decimal_digits (n + 1) n

-- `str::cmp`: by bytes, which for UTF-8 is by code points.
unfoldable pub text_le : Text → Text → Bool
text_le [] t = true
text_le (c ∷ s) [] = false
text_le (c ∷ s) (d ∷ t) = ltb c d || (eqb c d && text_le s t)

-- `sort_unstable_by`, as an insertion sort: it differs only in the order of equal keys.
module _ {A : Type 0} (key : A → Text) where
  unfoldable pub insert_sorted : A → List A → List A
  unfolding text_le
  insert_sorted a [] = a ∷ []
  insert_sorted a (b ∷ bs) = if text_le (key a) (key b) then a ∷ b ∷ bs else b ∷ insert_sorted a bs

  unfoldable pub sort_by : List A → List A
  unfolding insert_sorted
  sort_by [] = []
  sort_by (a ∷ as') = insert_sorted a (sort_by as')

-- Length, a colon and the text.
abbrev pub measured : Text → Text
measured s = decimal (byte_len s) ++ (b':' ∷ s)

unfoldable pub write_values : List Text → Text
unfolding decimal byte_len
write_values [] = []
write_values (value ∷ values) = b'|' ∷ (measured value ++ write_values values)

unfoldable pub write_entries : List SelectorValues → Text
unfolding decimal byte_len sort_by write_values
write_entries [] = []
write_entries (entry ∷ entries) =
    measured entry.kind.value
    ++ (write_values (sort_by (λ v. v) entry.values) ++ (b';' ∷ write_entries entries))

unfoldable pub stable_key : SelectorContext → Text
unfolding sort_by write_entries
stable_key ctx = write_entries (sort_by (λ e. e.kind.value) ctx.entries)
