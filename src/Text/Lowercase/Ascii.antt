-- ===== src/Text/Lowercase/Ascii.antt =====
-- A lower-casing that maps ASCII letters alone, which shows that the assumptions of `Lowercase` can
-- be met and on which the tests run.
use memguard_agent.Base.{refl, ap, ◌∙◌, ◌++◌, map, map-append}
use memguard_agent.Text.Lowercase.{Lowercase, ascii_lower}
use memguard_agent.Text.{Text}

abbrev pub ascii_lowercase : Lowercase
ascii_lowercase = record {
  to_lowercase = map ascii_lower;
  lowercase_plain = λ s h. refl;
  lowercase_embeds = λ before s after h. (
    map ascii_lower before,
    map ascii_lower after,
    map-append ascii_lower before (s ++ after)
        ∙ ap (λ (x : Text). map ascii_lower before ++ x) (map-append ascii_lower s after),
  );
}
