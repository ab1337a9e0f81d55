-- ===== src/DockerRun/Homes.antt =====
-- How .devkit/scripts/docker_run.py takes a path from one home to another.
use encrypted_zone_sdk.Base.{
  ◌≡◌, refl, sym, ◌∙◌, ap, subst, append_assoc, true, false, some, List, ◌++◌, arith, text_eq,
}
use encrypted_zone_sdk.Base.Text.{Text}
use encrypted_zone_sdk.FilePath.{FilePath, path_of, relative_to, is_relative_to, ◌/ₚ◌}
use encrypted_zone_sdk.FilePath.Order.{
  Below-is_relative_to, is_relative_to-Below, same_kind_refl, parts_behind-append,
}
use encrypted_zone_sdk.DockerRun.{in_home}

relative_to-below :
    (home : FilePath) (rest : List Text)
    → relative_to (path_of home.absolute (home.parts ++ rest)) home ≡ some (path_of false rest)
unfolding relative_to
relative_to-below home rest =
    ground (arith, same_kind_refl home.absolute, parts_behind-append home.parts rest)

in_home-below :
    (home other : FilePath) (rest : List Text)
    → in_home home other (path_of home.absolute (home.parts ++ rest))
      ≡ path_of other.absolute (other.parts ++ rest)
unfolding in_home ◌/ₚ◌
in_home-below home other rest = rw (relative_to-below home rest, in_home) refl

in_home-parts :
    (home other : FilePath) (r r' : List Text)
    → is_relative_to
        (in_home home other (path_of home.absolute (home.parts ++ (r ++ r'))))
        (in_home home other (path_of home.absolute (home.parts ++ r)))
      ≡ true
in_home-parts home other r r' = is_relative_to-Below _ _ (
  r',
  in_home-below home other (r ++ r')
      ∙ ap (path_of other.absolute) (sym (append_assoc other.parts r r'))
      ∙ ap (λ q. path_of q.absolute (q.parts ++ r')) (sym (in_home-below home other r)),
)

-- A path below a mount that lies in the home stays below it in the other home.
pub in_home-is_relative_to :
    (home other p x : FilePath)
    → is_relative_to p home ≡ true
    → is_relative_to x p ≡ true
    → is_relative_to (in_home home other x) (in_home home other p) ≡ true
in_home-is_relative_to home other p x in_it below =
    let (r, p_is) = Below-is_relative_to p home in_it in
    let (r', x_is) = Below-is_relative_to x p below in
    let x_at : x ≡ path_of home.absolute (home.parts ++ (r ++ r')) =
      x_is
      ∙ ap (λ q. path_of q.absolute (q.parts ++ r')) p_is
      ∙ ap (path_of home.absolute) (append_assoc home.parts r r') in
    subst (λ q. is_relative_to (in_home home other x) (in_home home other q) ≡ true) (sym p_is)
      (subst
        (λ y.
          is_relative_to (in_home home other y)
            (in_home home other (path_of home.absolute (home.parts ++ r)))
          ≡ true)
        (sym x_at) (in_home-parts home other r r'))
