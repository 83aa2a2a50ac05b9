-- ===== src/FrontMatter/Tests.antt =====
-- A chapter file with one attribute.
use dockb.Prelude.{◌≡◌, inr, String, refl, [], ◌∷◌}
use dockb.Dict
use dockb.Dict.{Dict}
use dockb.FrontMatter.{
  Loaded, mapping, update, parse, render, merge, split_lines, starts_with, split_closing, join,
}
use dockb.FrontMatter.RoundTrip.{Dumps, parse-merge}

abbrev attrs : Dict String
attrs = ("title", "A") ∷ []

abbrev load : String → Loaded String
load text = mapping attrs

abbrev dump : Dict String → String
dump d = "title: A\n"

attrs-Dumps : Dumps load dump attrs
unfolding split_lines starts_with
attrs-Dumps = record { ended = refl; unmarked = refl; loads = refl }

parse-merge_example : parse load dump "---\ntitle: A\n---\nbody" ≡ inr (update attrs attrs, "body")
unfolding parse split_lines starts_with split_closing join merge update Dict.set render
parse-merge_example =
    parse-merge load dump "---\ntitle: B\n---\nbody" "---\ntitle: A\n---\nbody" "body" attrs attrs
      refl refl attrs-Dumps refl
