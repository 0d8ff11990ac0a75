-- ===== src/NetClient/Robots/Patterns.antt =====
-- `path_matches` decides the meaning of a pattern.
use vpoiskaxroditeley.Prelude.{
  ℕ, ◌≡◌, ◌≢◌, ◌↔◌, refl, sym, ap, subst, ◌∙◌, Bool, true, false, List, [], ◌∷◌, ◌++◌, none, some,
  Option-cases, arith, inl, inr, append_assoc, append-nil, ==_iff,
}
use vpoiskaxroditeley.Str.{Bytes, is_empty, strip_prefix, strip_prefix-append, strip_prefix-eq_some}
use vpoiskaxroditeley.Str.Split.{split}
use vpoiskaxroditeley.Str.Ends.{EndsIn, ends_with→EndsIn, EndsIn→ends_with}
use vpoiskaxroditeley.NetClient.Robots.{
  match_mids, pop_last, match_rest, match_segments, strip_last, anchor_of, path_matches,
}
use vpoiskaxroditeley.NetClient.Robots.Glob.{
  Ends, Glob, end, InOrder, split-ne-nil, FromStart, Glob→FromStart, FromStart→Glob,
}
use vpoiskaxroditeley.NetClient.Robots.Greedy.{Extends, match_mids_sound, match_mids_complete}
use mathlib.Core.Option

EndsIn-Extends : (last : Bytes) → Extends (EndsIn last)
EndsIn-Extends last x t (pre, e) = (x ++ pre, ap (◌++◌ x) e ∙ sym (append_assoc x pre last))

pop_last-eq_some :
    (ms front : List Bytes) (last : Bytes)
    → pop_last ms ≡ some (front, last)
    → ms ≡ front ++ last ∷ []
unfolding pop_last
pop_last-eq_some [] front last h = cc
pop_last-eq_some (x ∷ []) front last h = cc
pop_last-eq_some (x ∷ y ∷ r) front last h = elim (Option-cases (pop_last (y ∷ r))) [
  | inl e ↦ ground (arith, e)
  | inr (t, e) ↦ ground (arith, e, pop_last-eq_some (y ∷ r) t.0 t.1)
]

pop_last-eq_none : (ms : List Bytes) → pop_last ms ≡ none → ms ≡ []
unfolding pop_last
pop_last-eq_none [] h = refl
pop_last-eq_none (x ∷ []) h = cc
pop_last-eq_none (x ∷ y ∷ r) h = elim (Option-cases (pop_last (y ∷ r))) [
  | inl e ↦ absurd (cc (pop_last-eq_none (y ∷ r) e))
  | inr (t, e) ↦ ground (arith, e)
]

InOrder-last :
    (front : List Bytes) (last t : Bytes)
    → InOrder (EndsIn last) front t ↔ InOrder (Ends true) (front ++ last ∷ []) t
InOrder-last [] last t = (
  λ (pre, e). (pre, [], e ∙ ap (◌++◌ pre) (sym (append-nil last)), refl),
  λ (pre, rest, e, h). (pre, e ∙ ap (λ x. pre ++ (last ++ x)) h ∙ ap (◌++◌ pre) (append-nil last)),
)
InOrder-last (s ∷ ss) last t = (
  λ (pre, rest, e, h). (pre, rest, e, (InOrder-last ss last rest).0 h),
  λ (pre, rest, e, h). (pre, rest, e, (InOrder-last ss last rest).1 h),
)

is_empty→eq : (t : Bytes) → is_empty t ≡ true → t ≡ []
is_empty→eq [] h = refl
is_empty→eq (x ∷ xs) h = cc

match_rest_sound :
    (anchored : Bool) (ms : List Bytes) (t : Bytes)
    → match_rest anchored ms t ≡ true
    → InOrder (Ends anchored) ms t
unfolding match_rest
match_rest_sound true ms t h = elim (Option-cases (pop_last ms)) [
  | inl e ↦ rw (pop_last-eq_none ms e) (is_empty→eq t (rw (e, match_rest) at h))
  | inr ((front, last), e) ↦ elim (Option-cases (match_mids front t)) [
    | inl f ↦ absurd (cc (rw (e, f, match_rest) at h))
    | inr (r, f) ↦
        let ends = ends_with→EndsIn last r (rw (e, f, match_rest) at h) in
        let found = match_mids_sound (EndsIn last) (EndsIn-Extends last) front t r f ends in
        rw (pop_last-eq_some ms front last e) ((InOrder-last front last t).0 found)
  ]
]
match_rest_sound false ms t h = elim (Option-cases (match_mids ms t)) [
  | inl e ↦ absurd (cc (rw (e, match_rest) at h))
  | inr (r, e) ↦ match_mids_sound (Ends false) (λ x u k. tt) ms t r e tt
]

match_rest_complete :
    (anchored : Bool) (ms : List Bytes) (t : Bytes)
    → InOrder (Ends anchored) ms t
    → match_rest anchored ms t ≡ true
unfolding match_rest
match_rest_complete true ms t h = elim (Option-cases (pop_last ms)) [
  | inl e ↦ rw (e, match_rest) (rw (subst (λ l. InOrder (Ends true) l t) (pop_last-eq_none ms e) h))
  | inr ((front, last), e) ↦
      let found =
        (InOrder-last front last t).1
          (subst (λ l. InOrder (Ends true) l t) (pop_last-eq_some ms front last e) h) in
      let (r, f, k) = match_mids_complete (EndsIn last) (EndsIn-Extends last) front t found in
      rw (e, f, match_rest) (EndsIn→ends_with last r k)
]
match_rest_complete false ms t h =
    let (r, e, k) = match_mids_complete (Ends false) (λ x u k. tt) ms t h in rw (e, match_rest)

match_segments_sound :
    (anchored : Bool) (ss : List Bytes) (t : Bytes)
    → ss ≢ []
    → match_segments anchored ss t ≡ true
    → FromStart (Ends anchored) ss t
unfolding match_segments
match_segments_sound anchored [] t ne h = absurd (ne refl)
match_segments_sound anchored (s ∷ ss) t ne h = elim (Option-cases (strip_prefix s t)) [
  | inl e ↦ absurd (cc (rw (e, match_segments) at h))
  | inr (r, e) ↦
      (r, strip_prefix-eq_some s t e, match_rest_sound anchored ss r (rw (e, match_segments) at h))
]

match_segments_complete :
    (anchored : Bool) (ss : List Bytes) (t : Bytes)
    → FromStart (Ends anchored) ss t
    → match_segments anchored ss t ≡ true
unfolding match_segments
match_segments_complete anchored [] t h = absurd h
match_segments_complete anchored (s ∷ ss) t (rest, e, h) =
    rw (e, strip_prefix-append s rest, match_segments) (match_rest_complete anchored ss rest h)

match_segments_iff :
    (anchored : Bool) (p t : Bytes)
    → (match_segments anchored (split b'*' p) t ≡ true) ↔ Glob anchored p t
match_segments_iff anchored p t = (
  λ h.
      FromStart→Glob anchored p t
        (match_segments_sound anchored (split b'*' p) t (split-ne-nil b'*' p) h),
  λ g. match_segments_complete anchored (split b'*' p) t (Glob→FromStart anchored g),
)

strip_last-append : (c : ℕ) (p : Bytes) → strip_last c (p ++ c ∷ []) ≡ some p
unfolding strip_last
strip_last-append c [] = rw ((==_iff c c).1 refl)
strip_last-append c (x ∷ []) = rw ((==_iff c c).1 refl)
strip_last-append c (x ∷ y ∷ r) = ap (Option.map (λ t. x ∷ t)) (strip_last-append c (y ∷ r))

is_empty-append : (p : Bytes) (c : ℕ) → is_empty (p ++ c ∷ []) ≡ false
is_empty-append [] c = refl
is_empty-append (x ∷ xs) c = refl

-- A pattern that ends in `$` matches exactly the paths that the text before the `$` matches to
-- their end, where `*` stands for any bytes.
pub path_matches-dollar :
    (path p : Bytes) → (path_matches path (p ++ b'$' ∷ []) ≡ true) ↔ Glob true p path
unfolding path_matches anchor_of
path_matches-dollar path p =
    rw (strip_last-append b'$' p, anchor_of, is_empty-append p b'$')
      (match_segments_iff true p path)

-- A pattern that does not end in `$` matches exactly the paths that begin with a match of it.
pub path_matches_open :
    (path p : Bytes) → strip_last b'$' p ≡ none → (path_matches path p ≡ true) ↔ Glob false p path
unfolding path_matches anchor_of
path_matches_open path [] h = (λ _. end tt, λ _. refl)
path_matches_open path (x ∷ xs) h = rw (h, anchor_of) (match_segments_iff false (x ∷ xs) path)
