-- ===== src/Machinefile/RoundTrip.antt =====
-- A machine file that was written from hosts reads back as these hosts.
use arl_hierarchical_multisc.Base.{
  ℕ, ◌≡◌, refl, ap, ap₂, ◌∙◌, true, false, some, String, List, [], ◌∷◌, ◌++◌, All, ◌==◌, arith,
}
use arl_hierarchical_multisc.Base.Effect.{ok, ◌>>=◌}
use arl_hierarchical_multisc.Machinefile.{
  Text, Files, newline, is_space, machinefile_text, cons_head, lines, starts_word, tokens,
  hosts_of_line, hosts_of_lines, number_slots, generate, generate_resources,
}

abbrev IsVisible : ℕ → Type 0
IsVisible c = is_space c ≡ false

-- A host: some characters, no spaces, and not a comment.
pub data IsHost : Text → Type 0 where
  host : (c : ℕ) (cs : Text) → (c == 35) ≡ false → All IsVisible (c ∷ cs) → IsHost (c ∷ cs)

visible_not_newline : (c : ℕ) → IsVisible c → (c == newline) ≡ false
visible_not_newline c h = ground arith

lines-line : (l rest : Text) → All IsVisible l → lines (l ++ newline ∷ rest) ≡ l ∷ lines rest
unfolding lines
lines-line [] rest h = refl
lines-line (c ∷ l) rest (hc, h) =
    rw (visible_not_newline c hc) (ap (cons_head c) (lines-line l rest h))

tokens-one : (c : ℕ) → IsVisible c → tokens (c ∷ []) ≡ (c ∷ []) ∷ []
unfolding tokens
tokens-one c h = rw h

tokens-cons :
    (c : ℕ) (cs : Text)
    → IsVisible c
    → starts_word cs ≡ true
    → tokens (c ∷ cs) ≡ cons_head c (tokens cs)
unfolding tokens
tokens-cons c cs h k = rw (h, k)

tokens-word : (c : ℕ) (cs : Text) → All IsVisible (c ∷ cs) → tokens (c ∷ cs) ≡ (c ∷ cs) ∷ []
tokens-word c [] (hc, h) = tokens-one c hc
tokens-word c (d ∷ ds) (hc, (hd, h)) =
    tokens-cons c (d ∷ ds) hc (rw hd) ∙ ap (cons_head c) (tokens-word d ds (hd, h))

hosts_of_line-host : (l : Text) → IsHost l → hosts_of_line l ≡ l ∷ []
unfolding hosts_of_line number_slots
hosts_of_line-host _ (host c cs h visible) = rw (h, tokens-word c cs visible)

IsHost-IsVisible : (l : Text) → IsHost l → All IsVisible l
IsHost-IsVisible _ (host c cs h visible) = visible

hosts_of_lines-machinefile_text :
    (hs : List Text) → All IsHost hs → hosts_of_lines (lines (machinefile_text hs)) ≡ hs
unfolding hosts_of_lines machinefile_text
hosts_of_lines-machinefile_text [] h = unfold lines in refl
hosts_of_lines-machinefile_text (l ∷ ls) (h, hs) =
    ap hosts_of_lines (lines-line l (machinefile_text ls) (IsHost-IsVisible l h))
    ∙ ap₂ (λ a b. a ++ b) (hosts_of_line-host l h) (hosts_of_lines-machinefile_text ls hs)

-- A machine file that was generated from a list of hosts, and that can be opened and still has its text,
-- gives back that list: each host once, in its place. A host has at least a character, no spaces, and
-- does not begin with `#`.
pub generate_resources-generate :
    {W : Type 0} (files : Files W) (path : String) (hs : List Text) (w w' v v' : W)
    → All IsHost hs
    → files.write path (machinefile_text hs) w ≡ (ok true, w')
    → files.read path v ≡ (ok (some (machinefile_text hs)), v')
    → (generate files path hs w ≡ (ok tt, w')) × (generate_resources files path v ≡ (ok hs, v'))
unfolding generate generate_resources ◌>>=◌
generate_resources-generate files path hs w w' v v' h written kept =
    (rw written, rw kept (ap (λ l. (ok l, v')) (hosts_of_lines-machinefile_text hs h)))
