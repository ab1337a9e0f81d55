-- ===== src/Coverage/Lcov/Lines.antt =====
-- What `parse_lcov_data_line` makes of each line that a coverage tool writes.
use encrypted_zone_sdk.Base.{
  ℕ, zero, ◌≡◌, refl, ◌∙◌, ap, ◌≢◌, false, Option, none, some, [], ◌∷◌, ◌++◌, arith, if◌then◌else◌,
  text_eq, All,
}
use encrypted_zone_sdk.Base.Int.{pos, eqz}
use encrypted_zone_sdk.Base.Result.{ok}
use encrypted_zone_sdk.Base.Text.{
  Text, codes, split, Lacks, split-Lacks, split-cons, replace-Lacks, replace_from,
}
use encrypted_zone_sdk.Base.Decimal.{
  show_ℕ, parse_int-show_ℕ, show_ℕ-IsDigit, Lacks-digits, is_digit, IsDigit,
}
use encrypted_zone_sdk.Coverage.Lcov.{
  FileCoverage, int, parse_line_data, parse_branch_data, parse_lcov_data_line,
}
use encrypted_zone_sdk.Coverage.Lcov.Render.{line_data, branch_data, marker}

int-show_ℕ : (n : ℕ) → int (show_ℕ n) ≡ ok (pos n)
unfolding int
int-show_ℕ n = rw (parse_int-show_ℕ n, int)

-- The text behind a tag, where the tag does not stand in a number.
number_behind :
    (o : ℕ) (old : Text) (n : ℕ)
    → is_digit o ≡ false
    → replace_from (o ∷ old) [] zero (show_ℕ n) ≡ show_ℕ n
number_behind o old n h = replace-Lacks o old [] (show_ℕ n) (Lacks-digits o _ h (show_ℕ-IsDigit n))

module _ (n : ℕ) (c : FileCoverage) where
  pub found_line :
      parse_lcov_data_line (codes "LF:" ++ show_ℕ n) c ≡ ok (record c { lines_found = pos n })
  unfolding parse_lcov_data_line
  found_line = rw (number_behind b'L' (codes "F:") n refl, int-show_ℕ n)

  pub hit_line :
      parse_lcov_data_line (codes "LH:" ++ show_ℕ n) c ≡ ok (record c { lines_hit = pos n })
  unfolding parse_lcov_data_line
  hit_line = rw (number_behind b'L' (codes "H:") n refl, int-show_ℕ n)

  pub branches_found_line :
      parse_lcov_data_line (codes "BRF:" ++ show_ℕ n) c ≡ ok (record c { branches_found = pos n })
  unfolding parse_lcov_data_line
  branches_found_line = rw (number_behind b'B' (codes "RF:") n refl, int-show_ℕ n)

  pub branches_hit_line :
      parse_lcov_data_line (codes "BRH:" ++ show_ℕ n) c ≡ ok (record c { branches_hit = pos n })
  unfolding parse_lcov_data_line
  branches_hit_line = rw (number_behind b'B' (codes "RH:") n refl, int-show_ℕ n)

comma_free : (n : ℕ) → Lacks b',' (show_ℕ n)
comma_free n = Lacks-digits b',' _ refl (show_ℕ-IsDigit n)

split-line_data :
    (line hits : ℕ)
    → split b',' (line_data (line, hits)) ≡ (codes "DA:" ++ show_ℕ line) ∷ show_ℕ hits ∷ []
split-line_data line hits =
    split-cons b',' (codes "DA:" ++ show_ℕ line) (show_ℕ hits)
      (refl, (refl, (refl, comma_free line)))
    ∙ ap (λ ps. (codes "DA:" ++ show_ℕ line) ∷ ps)
        (split-Lacks b',' (show_ℕ hits) (comma_free hits))

pub parse_line_data-line_data :
    (line hits : ℕ) (c : FileCoverage)
    → parse_line_data (line_data (line, hits)) c
      ≡ ok (
          if eqz (pos hits) (pos 0)
          then record c { uncovered_lines = c.uncovered_lines ++ (pos line ∷ []) }
          else c)
unfolding parse_line_data
parse_line_data-line_data line hits c = rw (
  split-line_data line hits,
  number_behind b'D' (codes "A:") line refl,
  int-show_ℕ line,
  int-show_ℕ hits,
)

marker-comma_free : (m : Option ℕ) → Lacks b',' (marker m)
marker-comma_free none = (refl, tt)
marker-comma_free (some hits) = comma_free hits

split-branch_data :
    (line block branch : ℕ) (m : Option ℕ)
    → split b',' (branch_data (line, block, branch, m))
      ≡ (codes "BRDA:" ++ show_ℕ line) ∷ show_ℕ block ∷ show_ℕ branch ∷ marker m ∷ []
split-branch_data line block branch m =
    split-cons b',' (codes "BRDA:" ++ show_ℕ line) _
      (refl, (refl, (refl, (refl, (refl, comma_free line)))))
    ∙ ap (λ ps. (codes "BRDA:" ++ show_ℕ line) ∷ ps)
        (split-cons b',' (show_ℕ block) _ (comma_free block)
          ∙ ap (λ ps. show_ℕ block ∷ ps)
              (split-cons b',' (show_ℕ branch) _ (comma_free branch)
                ∙ ap (λ ps. show_ℕ branch ∷ ps)
                    (split-Lacks b',' (marker m) (marker-comma_free m))))

-- A printed number is not the mark of a branch that was not reached.
show_ℕ-ne-dash : (n : ℕ) → show_ℕ n ≢ codes "-"
show_ℕ-ne-dash n e =
    let digits : All IsDigit (codes "-") = rw e at (show_ℕ-IsDigit n) in absurd (omega arith)

unfoldable pub missed_branch : ℕ × ℕ × ℕ × Option ℕ → FileCoverage → FileCoverage
missed_branch (line, block, branch, none) c = record c {
  uncovered_branches = c.uncovered_branches ++ ((pos line, pos block, pos branch) ∷ []);
}
missed_branch (line, block, branch, some hits) c = c

pub parse_branch_data-branch_data :
    (b : ℕ × ℕ × ℕ × Option ℕ) (c : FileCoverage)
    → parse_branch_data (branch_data b) c ≡ ok (missed_branch b c)
unfolding parse_branch_data missed_branch
parse_branch_data-branch_data (line, block, branch, none) c = rw (
  split-branch_data line block branch none,
  number_behind b'B' (codes "RDA:") line refl,
  int-show_ℕ line,
  int-show_ℕ block,
  int-show_ℕ branch,
)
parse_branch_data-branch_data (line, block, branch, some hits) c =
    rw
      (
        split-branch_data line block branch (some hits),
        number_behind b'B' (codes "RDA:") line refl,
        int-show_ℕ line,
        int-show_ℕ block,
        int-show_ℕ branch,
      )
      (ground (arith, show_ℕ-ne-dash hits))
