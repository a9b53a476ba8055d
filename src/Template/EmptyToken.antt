-- ===== src/Template/EmptyToken.antt =====
-- A token with nothing but white space in it.
use mathlib.Core.Path.{subst}
use lib_sloppy.Base.{
  ℕ, ◌+◌, ◌-◌, ◌<◌, ◌≡◌, refl, sym, ◌∙◌, ap, true, false, [], ◌∷◌, ◌++◌, append-nil, none, some,
  Bytes, length, length-append, take-append, drop-append, All, ltb, ◌==◌, same, ok, arith,
}
use lib_sloppy.Text.Edit.{slice, slice_lem, npos}
use lib_sloppy.Template.Matches.{tokens_some}
use lib_sloppy.Text.Trim.{trim, is_space, IsSpace, trim-spaces_only}
use lib_sloppy.Template.{SyntaxTreeItem, SyntaxTreeItemType}
use lib_sloppy.Template.SyntaxSectionType.{root}
use lib_sloppy.Template.Tokens.{
  open_brace, close_brace, run_length, no_brace, match_token, tokens_from,
}
use lib_sloppy.Template.Parse.{
  ParseState, parse, process_all, process_match, finish, new_state, goes, insert_static,
  insert_item, blank,
}

abbrev pub ends_token : Bytes
ends_token = close_brace ∷ close_brace ∷ []

abbrev pub in_braces : Bytes → Bytes
in_braces w = open_brace ∷ open_brace ∷ (w ++ ends_token)

spaces_run : (w : Bytes) → All IsSpace w → run_length no_brace (w ++ ends_token) ≡ length w
unfolding run_length is_space
spaces_run [] h = refl
spaces_run (c ∷ w) h = ground (arith, spaces_run w h.1)

skipped : (pos : ℕ) (s : Bytes) → tokens_from pos (length s) s ≡ []
unfolding tokens_from
skipped pos [] = refl
skipped pos (c ∷ s) = skipped (pos + 1) s

matched : (w : Bytes) → All IsSpace w → (length w == 0) ≡ false → match_token (in_braces w) ≡ some w
unfolding match_token same
matched w h ne = rw (spaces_run w h, ne, drop-append w ends_token, take-append w ends_token)

one_match :
    (w : Bytes)
    → All IsSpace w
    → (length w == 0) ≡ false
    → tokens_from 0 0 (in_braces w) ≡ record { position = 0; inner = w } ∷ []
one_match w h ne =
    let rest = open_brace ∷ (w ++ ends_token) in
    let size : length rest ≡ length w + 3 = omega (arith, length-append w ends_token) in
    tokens_some 0 open_brace rest w (matched w h ne)
    ∙ ap (λ ms. record { position = 0; inner = w } ∷ ms)
        (subst (λ n. tokens_from 1 n rest ≡ []) size (skipped 1 rest))

end_slice :
    (w : Bytes)
    → length (in_braces w) < npos
    → slice (in_braces w) 2 (length (in_braces w) - 1) ≡ ok (w ++ ends_token)
end_slice w small =
    let whole =
      ap (λ t. slice (open_brace ∷ open_brace ∷ t) 2 (length (in_braces w) - 1))
        (append-nil (w ++ ends_token)) in
    sym whole
    ∙ slice_lem (open_brace ∷ open_brace ∷ []) (w ++ ends_token) [] (length (in_braces w) - 1)
        (omega (arith, length-append w ends_token)) (omega (arith, length-append w ends_token))
        (omega (arith, small))

-- A template that is one token with nothing but white space between its braces has, unless it is too
-- long, a tree of one item of static text, which is the token without its first two braces: the code
-- goes on behind the number of groups of the match instead of behind its end.
pub empty_token_text :
    (w : Bytes)
    → All IsSpace w
    → (length w == 0) ≡ false
    → length (in_braces w) < npos
    → (st : ParseState) × (parse (in_braces w) ≡ ok (goes st))
      × (st.tree
          ≡ record (blank SyntaxTreeItemType.static 2 (length (in_braces w) - 1)) {
            static_text = w ++ ends_token;
          }
            ∷ [])
unfolding parse process_all process_match finish new_state insert_static insert_item
empty_token_text w h ne small =
    let none_left : (length (trim w) == 0) ≡ true =
      ap (λ t. length t == 0) (trim-spaces_only w h) in
    let more : ltb 2 (length (in_braces w)) ≡ true = ground (arith, length-append w ends_token) in
    let some_text : (length (in_braces w) == 0) ≡ false = ground arith in
    let item : SyntaxTreeItem =
      record (blank SyntaxTreeItemType.static 2 (length (in_braces w) - 1)) {
        static_text = w ++ ends_token;
      } in
    (
      record {
        tree = item ∷ [];
        cur_section_start = 2;
        idx_parent_item = none;
        cur_section = root;
        update_parent = false;
        idx_last_sibling = some 0;
      },
      rw (some_text, one_match w h ne, none_left, more, end_slice w small) refl,
      refl,
    )
