-- ===== src/FrontMatter/RoundTrip.antt =====
-- Reading back what was rendered or merged.
use dockb.Prelude.{
  some, String, ◌≡◌, refl, ap, ◌∙◌, inr, Bool, true, false, List, [], ◌∷◌, ◌++◌, arith, any_of,
}
use dockb.Prelude.Text.{append, append_assoc}
use dockb.Dict.{Dict}
use dockb.FrontMatter.{
  starts_with, split_lines, split_closing, Loaded, attrs_of, update, parse, render, merge,
}
use dockb.FrontMatter.Lines.{join-split_lines, is_ended, split_lines-append}

-- A line that closes the block.
abbrev pub marks : String → Bool
marks l = starts_with "---" l

split_closing-append :
    (ls ms : List String)
    → any_of marks ls ≡ false
    → split_closing (ls ++ "---\n" ∷ ms) ≡ some (ls, ms)
unfolding split_closing starts_with
split_closing-append [] ms h = refl
split_closing-append (l ∷ ls) ms h = ground (arith, split_closing-append ls ms)

split_marker : (t : String) → split_lines (append "---\n" t) ≡ "---\n" ∷ split_lines t
unfolding split_lines
split_marker t = split_lines-append "---\n" t refl

module _ {ℓ} {V : Type ℓ} (load : String → Loaded V) (dump : Dict V → String) where
  -- What the YAML package gives for attributes: whole lines, none of which opens with the marker,
  -- and which are read back.
  pub record Dumps (attrs : Dict V) : Type ℓ where
    pub ended : is_ended (dump attrs) ≡ true
    pub unmarked : any_of marks (split_lines (dump attrs)) ≡ false
    pub loads : attrs_of (load (dump attrs)) ≡ inr attrs

  -- What is rendered in front of a body is read back with the body, whatever the body is.
  pub parse-render :
      (attrs : Dict V) (body : String)
      → Dumps attrs
      → parse load dump (append (render load dump attrs) body) ≡ inr (attrs, body)
  unfolding parse render starts_with
  parse-render attrs body d =
      let block = append (dump attrs) (append "---\n" body) in
      let lines : split_lines (append "---\n" block)
          ≡ "---\n" ∷ split_lines (dump attrs) ++ "---\n" ∷ split_lines body =
        split_marker block
        ∙ ap (λ ls. "---\n" ∷ ls)
            (split_lines-append (dump attrs) (append "---\n" body) d.ended
              ∙ ap (λ ls. split_lines (dump attrs) ++ ls) (split_marker body)) in
      let whole : append (append (dump attrs) "---\n") body ≡ block =
        append_assoc (dump attrs) "---\n" body in
      rw whole (
        rw lines (
          rw (split_closing-append (split_lines (dump attrs)) (split_lines body) d.unmarked)
            (rw (join-split_lines (dump attrs), d.loads, join-split_lines body) refl)))

  -- A merge into a file that has a block keeps the body and sets the updates: reading the file back
  -- gives the attributes that it had, with the updates, and the same body.
  pub parse-merge :
      (content content' body : String) (attrs updates : Dict V)
      → marks content ≡ true
      → parse load dump content ≡ inr (attrs, body)
      → Dumps (update attrs updates)
      → merge load dump content updates ≡ inr content'
      → parse load dump content' ≡ inr (update attrs updates, body)
  unfolding merge
  parse-merge content content' body attrs updates m h d e =
      let same : append (render load dump (update attrs updates)) body ≡ content' =
        ground (arith, m, h, e) in
      rw (← same) (parse-render (update attrs updates) body d)
