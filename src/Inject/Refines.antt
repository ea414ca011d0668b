-- ===== src/Inject/Refines.antt =====
-- What the loop over a shell script does to its heredocs, as a relation of the lines before and
-- after.
use capi_provider_ssh.Base.{
  String, true, false, ◌≡◌, refl, ap, sym, ◌∙◌, subst, inl, inr, Bool-cases, Option-cases, List, [],
  ◌∷◌, ◌++◌, Option, none, some, ◌==◌,
}
use capi_provider_ssh.Text.{strip}
use capi_provider_ssh.Text.Regex.{matches}
use capi_provider_ssh.Text.Lines.{splitlines, join_lines}
use capi_provider_ssh.World.{Outcome, ok, err}
use capi_provider_ssh.Fallible.{bind_ok}
use capi_provider_ssh.Kubeadm.{PatchedText}
use capi_provider_ssh.Inject.{
  Heredoc, parse_heredoc_start, is_kubeadm_path, Patcher, Open, Turn, Injected, close_heredoc,
  line_turn, inject_lines,
}

-- A body and what replaces it: the patched YAML of a kubeadm file where the patch saw a document of
-- its kind, and else the body itself.
pub data Replaced (patch : Patcher) (path : String) (body : List String)
    : List String → Type 0 where
  same : Replaced patch path body body
  patched :
      (p : PatchedText)
      → is_kubeadm_path path ≡ true
      → patch (join_lines body) ≡ ok p
      → p.saw ≡ true
      → Replaced patch path body (splitlines p.patched_text)

-- The lines of a script and the lines that are written for it, from a place outside of every heredoc
-- or after the first lines of one.
pub data Rewrites (patch : Patcher) : Option Open → List String → List String → Type 0 where
  finished : Rewrites patch none [] []
  -- a line outside of every heredoc
  copied :
      (line : String) (lines out : List String)
      → parse_heredoc_start line ≡ none
      → Rewrites patch none lines out
      → Rewrites patch none (line ∷ lines) (line ∷ out)
  opened :
      (line : String) (h : Heredoc) (lines out : List String)
      → parse_heredoc_start line ≡ some h
      → Rewrites patch (some (record { heredoc = h; body = [] })) lines out
      → Rewrites patch none (line ∷ lines) (line ∷ out)
  -- a heredoc that has no end keeps its lines
  unfinished : (o : Open) → Rewrites patch (some o) [] o.body
  continued :
      (o : Open) (line : String) (lines out : List String)
      → strip line == o.heredoc.tag ≡ false
      → Rewrites patch (some (record o { body = o.body ++ line ∷ [] })) lines out
      → Rewrites patch (some o) (line ∷ lines) out
  -- the end of a heredoc
  closed :
      (o : Open) (new : List String) (line : String) (lines out : List String)
      → strip line == o.heredoc.tag ≡ true
      → Replaced patch o.heredoc.path o.body new
      → Rewrites patch none lines out
      → Rewrites patch (some o) (line ∷ lines) ((new ++ line ∷ []) ++ out)

abbrev output_of : Outcome Injected → List String
output_of (ok r) = r.output
output_of (err e) = []

abbrev turn_of : Turn → Outcome Turn → Turn
turn_of d (ok t) = t
turn_of d (err e) = d

-- the end of a heredoc writes its body, or what replaces it
close-Replaced :
    (patch : Patcher) (o : Open) (line : String) (t : Turn)
    → close_heredoc patch o line ≡ ok t
    → (new : List String) × Replaced patch o.heredoc.path o.body new
      × (t.output ≡ new ++ line ∷ [])
      × (t.next ≡ none)
unfolding close_heredoc
close-Replaced patch o line t e = elim (Bool-cases (is_kubeadm_path o.heredoc.path)) [
  | inl yaml ↦
      let (p, ep, et) = bind_ok (patch (join_lines o.body)) _ t (rw yaml at e) in
      let found = ap (turn_of t) et in
      elim (Bool-cases p.saw) [
        | inl saw ↦ (
          splitlines p.patched_text,
          Replaced.patched p yaml ep saw,
          sym (ap (λ x. x.output) found) ∙ rw saw refl,
          sym (ap (λ x. x.next) found),
        )
        | inr unseen ↦ (
          o.body,
          Replaced.same,
          sym (ap (λ x. x.output) found) ∙ rw unseen refl,
          sym (ap (λ x. x.next) found),
        )
      ]
  | inr other ↦
      let found = ap (turn_of t) (rw other at e) in
      (o.body, Replaced.same, sym (ap (λ x. x.output) found), sym (ap (λ x. x.next) found))
]

-- one line, given what the lines after it become
module _ (patch : Patcher) (line : String) (lines : List String) (t : Turn) (rest r : Injected)
    (tail : Rewrites patch t.next lines rest.output)
    (total : t.output ++ rest.output ≡ r.output) where
  abbrev NextIs : Option Open → Type 0
  NextIs n = Rewrites patch n lines rest.output

  outside-Rewrites : line_turn patch none line ≡ ok t → Rewrites patch none (line ∷ lines) r.output
  unfolding line_turn parse_heredoc_start matches
  outside-Rewrites e = elim (Option-cases (parse_heredoc_start line)) [
    | inl plain ↦
        let found = ap (turn_of t) (rw plain at e) in
        subst (λ x. Rewrites patch none (line ∷ lines) x)
          (ap (λ x. x.output ++ rest.output) found ∙ total)
          (Rewrites.copied line lines rest.output plain
            (subst NextIs (sym (ap (λ x. x.next) found)) tail))
    | inr (h, start) ↦
        let found = ap (turn_of t) (rw start at e) in
        subst (λ x. Rewrites patch none (line ∷ lines) x)
          (ap (λ x. x.output ++ rest.output) found ∙ total)
          (Rewrites.opened line h lines rest.output start
            (subst NextIs (sym (ap (λ x. x.next) found)) tail))
  ]

  inside-Rewrites :
      (o : Open)
      → line_turn patch (some o) line ≡ ok t
      → Rewrites patch (some o) (line ∷ lines) r.output
  unfolding line_turn
  inside-Rewrites o e = elim (Bool-cases (strip line == o.heredoc.tag)) [
    | inl last ↦
        let (new, replaced, eo, en) = close-Replaced patch o line t (rw last at e) in
        subst (λ x. Rewrites patch (some o) (line ∷ lines) x)
          (ap (λ x. x ++ rest.output) (sym eo) ∙ total)
          (Rewrites.closed o new line lines rest.output last replaced (subst NextIs en tail))
    | inr more ↦
        let found = ap (turn_of t) (rw more at e) in
        subst (λ x. Rewrites patch (some o) (line ∷ lines) x)
          (ap (λ x. x.output ++ rest.output) found ∙ total)
          (Rewrites.continued o line lines rest.output more
            (subst NextIs (sym (ap (λ x. x.next) found)) tail))
  ]

-- Where the loop over the lines of a script returns, each line outside of a heredoc is copied, each
-- heredoc that has an end keeps its first and its last line, its body changes only if it is a
-- kubeadm file in which the patch saw a document of its kind, and then to the lines of the patched
-- YAML, and a heredoc without an end is kept.
pub inject_lines-Rewrites :
    (patch : Patcher) (o : Option Open) (lines : List String) (r : Injected)
    → inject_lines patch o lines ≡ ok r
    → Rewrites patch o lines r.output
unfolding inject_lines
inject_lines-Rewrites patch none [] r e =
    subst (λ x. Rewrites patch none [] x) (ap output_of e) Rewrites.finished
inject_lines-Rewrites patch (some o) [] r e =
    subst (λ x. Rewrites patch (some o) [] x) (ap output_of e) (Rewrites.unfinished o)
inject_lines-Rewrites patch none (line ∷ lines) r e =
    let (t, et, e') = bind_ok (line_turn patch none line) _ r e in
    let (rest, er, eo) = bind_ok (inject_lines patch t.next lines) _ r e' in
    outside-Rewrites patch line lines t rest r (inject_lines-Rewrites patch t.next lines rest er)
      (ap output_of eo) et
inject_lines-Rewrites patch (some o) (line ∷ lines) r e =
    let (t, et, e') = bind_ok (line_turn patch (some o) line) _ r e in
    let (rest, er, eo) = bind_ok (inject_lines patch t.next lines) _ r e' in
    inside-Rewrites patch line lines t rest r (inject_lines-Rewrites patch t.next lines rest er)
      (ap output_of eo) o et
