-- ===== src/Stats/Content.antt =====
-- `parse_content` of src/stats/parse.rs on a whole file: what it makes of the lines of a log.
use mathlib.Core.List.{filter_map}
use bo_srv_rs.Common.{
  ◌+◌, Bool, not, ◌&&◌, List, [], ◌∷◌, ◌++◌, Option, ◌≡◌, refl, ◌∙◌, sym, ap, arith, ◌==◌, All,
  Option-cases, inl, inr, Bool-cases, append_assoc, append_nil, is_none, count,
}
use bo_srv_rs.Common.Text.Decimal.{Text}
use bo_srv_rs.Common.Text.Fields.{split, lines, Without, split_append, finish_lines, strip_cr}
use bo_srv_rs.Common.Text.Trim.{is_empty, trim}
use bo_srv_rs.Stats.Row.{ParseOutcome, parse_row, parse_line, parse_lines, parse_content}

-- The text of a log: every row is followed by a line feed, as the writer does it.
abbrev pub unlines : List Text → Text
unlines [] = []
unlines (t ∷ ts) = t ++ (b'\n' ∷ unlines ts)

-- A line that `lines` gives back: without a line feed, and with no carriage return at its end.
pub record IsLine (t : Text) : Type 0 where
  pub without : Without b'\n' t
  pub ends : strip_cr t ≡ t

split-cons : (t : Text) → (f : Text) × ((fs : List Text) × (split b'\n' t ≡ f ∷ fs))
unfolding split
split-cons [] = ([], ([], refl))
split-cons (c ∷ cs) =
    let (f, (fs, e)) = split-cons cs in
    elim (Bool-cases (c == b'\n')) [
      | inl here ↦ ([], (f ∷ fs, rw (here, e) refl))
      | inr later ↦ (c ∷ f, (fs, rw (later, e) refl))
    ]

lines-unlines : (ts : List Text) → All IsLine ts → lines (unlines ts) ≡ ts
unfolding lines
lines-unlines [] h = unfold split in refl
lines-unlines (t ∷ ts) h =
    let (f, (fs, e)) = split-cons (unlines ts) in
    rw (split_append b'\n' t (unlines ts) h.0.without, e)
      (rw h.0.ends (ap (◌∷◌ t) (sym (ap finish_lines e) ∙ lines-unlines ts h.1)))

module _ {F : Type 0} (parse_f64 : Text → Option F) where
  -- A line that the parser rejects, though it is not blank.
  abbrev pub is_malformed : Text → Bool
  is_malformed t = is_none (parse_row parse_f64 t) && not (is_empty (trim t))

  rows-parse_lines :
      (out : ParseOutcome F) (ts : List Text)
      → (parse_lines parse_f64 out ts).rows ≡ out.rows ++ filter_map (parse_row parse_f64) ts
  unfolding parse_lines parse_line filter_map
  rows-parse_lines out [] = sym (append_nil out.rows)
  rows-parse_lines out (t ∷ ts) =
      rows-parse_lines (parse_line parse_f64 out t) ts
      ∙ elim (Option-cases (parse_row parse_f64 t)) [
        | inl e ↦
            rw (e, parse_line)
              (elim (Bool-cases (is_empty (trim t))) [
                | inl b ↦ rw (b, parse_line) refl
                | inr b ↦ rw (b, parse_line) refl
              ])
        | inr (r, e) ↦
            rw (e, parse_line)
              (append_assoc out.rows (r ∷ []) (filter_map (parse_row parse_f64) ts))
      ]

  malformed-parse_lines :
      (out : ParseOutcome F) (ts : List Text)
      → (parse_lines parse_f64 out ts).malformed ≡ out.malformed + count is_malformed ts
  unfolding parse_lines parse_line
  malformed-parse_lines out [] = omega arith
  malformed-parse_lines out (t ∷ ts) =
      malformed-parse_lines (parse_line parse_f64 out t) ts
      ∙ elim (Option-cases (parse_row parse_f64 t)) [
        | inl e ↦
            rw (e, parse_line)
              (elim (Bool-cases (is_empty (trim t))) [
                | inl b ↦ rw (b, parse_line) (omega arith)
                | inr b ↦ rw (b, parse_line) (omega arith)
              ])
        | inr (r, e) ↦ rw (e, parse_line) (omega arith)
      ]

  -- Reading a log of lines gives the rows of the lines that parse, in order, and counts the lines
  -- that do not parse and are not blank, for lines that hold no line feed and end in no carriage
  -- return.
  pub parse_content-unlines :
      (ts : List Text)
      → All IsLine ts
      → ((parse_content parse_f64 (unlines ts)).rows ≡ filter_map (parse_row parse_f64) ts)
        × ((parse_content parse_f64 (unlines ts)).malformed ≡ count is_malformed ts)
  unfolding parse_content
  parse_content-unlines ts h =
      let empty : ParseOutcome F = record { rows = []; malformed = 0 } in
      rw (lines-unlines ts h)
        (rows-parse_lines empty ts, malformed-parse_lines empty ts ∙ omega arith)
