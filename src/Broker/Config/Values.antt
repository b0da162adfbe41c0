-- ===== src/Broker/Config/Values.antt =====
-- The two functions `splitString`, of comm/Launcher.cc and broker/BrokerFactory.cc, over the same text.
use arl_hierarchical_multisc.Base.{
  ◌≡◌, refl, ap, sym, ◌∙◌, String, List, [], ◌∷◌, map, Bool-cases, inl, inr,
}
use arl_hierarchical_multisc.Machinefile.{Text, is_space, cons_head, tokens}
use arl_hierarchical_multisc.Machinefile
use arl_hierarchical_multisc.Launcher.Processes.{codes}
use arl_hierarchical_multisc.Broker.Config.{cons_char, starts_word, split_string}
use Prim.Native.Char.{Char, code}

starts_word-codes : (s : String) → starts_word s ≡ Machinefile.starts_word (codes s)
starts_word-codes (String.[]) = refl
starts_word-codes (String.◌∷◌ c s) = refl

codes-cons_char :
    (c : Char) (ss : List String) → map codes (cons_char c ss) ≡ cons_head (code c) (map codes ss)
codes-cons_char c [] = refl
codes-cons_char c (s ∷ ss) = refl

-- The factory and the launcher split an option into the same words: what the one counts as the hosts, and
-- checks the id of a broker against, is what the other launches a broker for.
pub split_string-tokens : (s : String) → map codes (split_string s) ≡ tokens (codes s)
unfolding split_string tokens
split_string-tokens (String.[]) = refl
split_string-tokens (String.◌∷◌ c s) = elim (Bool-cases (is_space (code c))) [
  | inl e ↦ rw e (split_string-tokens s)
  | inr e ↦ elim (Bool-cases (starts_word s)) [
    | inl k ↦
        rw (e, sym (starts_word-codes s), k)
          (codes-cons_char c (split_string s) ∙ ap (cons_head (code c)) (split_string-tokens s))
    | inr k ↦
        rw (e, sym (starts_word-codes s), k) (ap (λ ts. (code c ∷ []) ∷ ts) (split_string-tokens s))
  ]
]
