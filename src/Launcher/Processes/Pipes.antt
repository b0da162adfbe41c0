-- ===== src/Launcher/Processes/Pipes.antt =====
-- What is read from a child's pipe, and what is written to it.
use arl_hierarchical_multisc.Base.{
  All-append, append-nil, ◌<◌, length-append, ℕ, zero, suc, ◌+◌, ◌-◌, ◌≤◌, ◌≡◌, refl, ap, sym,
  subst, ◌∙◌, true, false, none, some, List, [], ◌∷◌, ◌++◌, length, take, All, append_assoc, ◌==◌,
  if◌then◌else◌, arith, lt→ltb,
}
use arl_hierarchical_multisc.Base.Int.{negsuc}
use arl_hierarchical_multisc.Base.Effect.{M, ok, err, os_error, undefined, pure, ◌>>=◌, bind-ok}
use arl_hierarchical_multisc.Machinefile.{Text, newline, machinefile_text}
use arl_hierarchical_multisc.Launcher.Processes.{
  System, is_address, address_of, address_line, read_address, write_character,
}

abbrev InLine : ℕ → Type 0
InLine c = (c == newline) ≡ false

-- A line of the child's that does not say an address.
abbrev pub IsOther : Text → Type 0
IsOther l = All InLine l × (is_address (l ++ newline ∷ []) ≡ false)

take-length : (xs ys : Text) (n : ℕ) → n ≡ length xs → take n (xs ++ ys) ≡ xs
take-length [] ys zero e = refl
take-length [] ys (suc n) e = absurd (omega arith)
take-length (x ∷ xs) ys zero e = absurd (omega arith)
take-length (x ∷ xs) ys (suc n) e = ap (λ zs. x ∷ zs) (take-length xs ys n (omega arith))

is_address-line : (a : Text) → is_address (address_line ++ (a ++ newline ∷ [])) ≡ true
is_address-line a =
    rw
      (lt→ltb 9 (length (address_line ++ (a ++ newline ∷ [])))
        (omega (arith, length-append a (newline ∷ []))))
      refl

address_of-line : (a : Text) → address_of (address_line ++ (a ++ newline ∷ [])) ≡ a
address_of-line a = take-length a (newline ∷ []) _ (omega (arith, length-append a (newline ∷ [])))

module _ {W : Type 0} (system : System W) (pipe : ℕ) where
  -- The pipe gives a text, one character for each call.
  pub data Gives : Text → W → W → Type 0 where
    nothing : {w : W} → Gives [] w w
    gives :
        {c : ℕ} {cs : Text} {w w' w'' : W}
        → system.read pipe w ≡ (ok (some c), w')
        → Gives cs w' w''
        → Gives (c ∷ cs) w w''

  -- What is done with a whole line.
  after_line : ℕ → Text → M W Text
  after_line fuel line =
      if is_address line then pure (address_of line) else read_address system fuel pipe []

  read-newline :
      (fuel : ℕ) (line : Text) (w w' : W)
      → system.read pipe w ≡ (ok (some newline), w')
      → read_address system (suc fuel) pipe line w ≡ after_line fuel (line ++ newline ∷ []) w'
  unfolding read_address after_line
  read-newline fuel line w w' e = bind-ok (system.read pipe) _ w w' (some newline) e

  read-other :
      (fuel c : ℕ) (line : Text) (w w' : W)
      → InLine c
      → system.read pipe w ≡ (ok (some c), w')
      → read_address system (suc fuel) pipe line w
        ≡ read_address system fuel pipe (line ++ c ∷ []) w'
  unfolding read_address
  read-other fuel c line w w' h e = bind-ok (system.read pipe) _ w w' (some c) e ∙ rw h

  -- The rest of a line.
  read-line :
      (fuel n : ℕ) (line l rest : Text) (w w'' : W)
      → n ≡ length l + fuel
      → All InLine l
      → Gives (l ++ newline ∷ rest) w w''
      → (w' : W) × Gives rest w' w''
        × (read_address system (suc n) pipe line w
            ≡ after_line fuel (line ++ (l ++ newline ∷ [])) w')
  read-line fuel n line [] rest w w'' e h (gives {w' = w'} r more) = (
    w',
    more,
    read-newline n line w w' r ∙ ap (λ m. after_line m (line ++ newline ∷ []) w') (omega arith),
  )
  read-line fuel zero line (c ∷ cs) rest w w'' e h g = absurd (omega arith)
  read-line fuel (suc n) line (c ∷ cs) rest w w'' e (h, hs) (gives {w' = w1} r more) =
      let (w', rest_there, same) =
        read-line fuel n (line ++ c ∷ []) cs rest w1 w'' (omega arith) hs more in
      (
        w',
        rest_there,
        read-other (suc n) c line w w1 h r
            ∙ same
            ∙ ap (λ l. after_line fuel l w') (append_assoc line (c ∷ []) (cs ++ newline ∷ [])),
      )

  after_line-other :
      (fuel : ℕ) (line : Text) (w : W)
      → is_address line ≡ false
      → after_line fuel line w ≡ read_address system fuel pipe [] w
  unfolding after_line
  after_line-other fuel line w h = rw h

  read-others :
      (fuel n : ℕ) (ls : List Text) (rest : Text) (w w'' : W)
      → n ≡ length (machinefile_text ls) + fuel
      → All IsOther ls
      → Gives (machinefile_text ls ++ rest) w w''
      → (w' : W) × Gives rest w' w''
        × (read_address system n pipe [] w ≡ read_address system fuel pipe [] w')
  unfolding machinefile_text
  read-others fuel n [] rest w w'' e h g =
      (w, g, ap (λ m. read_address system m pipe [] w) (omega arith))
  read-others fuel zero (l ∷ ls) rest w w'' e h g =
      absurd (omega (arith, length-append l (newline ∷ machinefile_text ls)))
  read-others fuel (suc n) (l ∷ ls) rest w w'' e ((hl, hn), hs) g =
      let later : ℕ = length (machinefile_text ls) + fuel in
      let (w1, more, same) =
        read-line later n [] l (machinefile_text ls ++ rest) w w''
          (omega (arith, length-append l (newline ∷ machinefile_text ls))) hl
          (subst (λ t. Gives t w w'') (append_assoc l (newline ∷ machinefile_text ls) rest) g) in
      let (w', rest_there, same') = read-others fuel later ls rest w1 w'' refl hs more in
      (w', rest_there, same ∙ after_line-other later (l ++ newline ∷ []) w1 hn ∙ same')

  after_line-address :
      (fuel : ℕ) (a : Text) (w : W)
      → after_line fuel (address_line ++ (a ++ newline ∷ [])) w ≡ (ok a, w)
  unfolding after_line ◌>>=◌
  after_line-address fuel a w = rw (is_address-line a, address_of-line a) refl

  -- After lines that say no address, and as much fuel as characters, the address is the rest of the first
  -- line that begins with `Address: `, and what comes after that line stays in the pipe.
  pub read_address-first :
      (fuel : ℕ) (ls : List Text) (a rest : Text) (w w'' : W)
      → length (machinefile_text ls ++ (address_line ++ (a ++ newline ∷ []))) ≤ fuel
      → All IsOther ls
      → All InLine a
      → Gives (machinefile_text ls ++ ((address_line ++ a) ++ newline ∷ rest)) w w''
      → (w' : W) × Gives rest w' w'' × (read_address system fuel pipe [] w ≡ (ok a, w'))
  read_address-first fuel ls a rest w w'' h hs ha g =
      let extra : ℕ =
        fuel - length (machinefile_text ls ++ (address_line ++ (a ++ newline ∷ []))) in
      let n : ℕ = length (address_line ++ a) + extra in
      let (w1, more, same) =
        read-others (suc n) fuel ls ((address_line ++ a) ++ newline ∷ rest) w w''
          (omega (
            arith,
            length-append (machinefile_text ls) (address_line ++ (a ++ newline ∷ [])),
            length-append a (newline ∷ []),
          ))
          hs g in
      let (w', after, same') =
        read-line extra n [] (address_line ++ a) rest w1 w'' refl
          (All-append InLine address_line a
            (refl, (refl, (refl, (refl, (refl, (refl, (refl, (refl, (refl, tt))))))))) ha)
          more in
      (w', after, same ∙ same' ∙ after_line-address extra a w')

  at_end :
      (fuel : ℕ) (w w' w'' : W)
      → Gives [] w w'
      → system.read pipe w' ≡ (ok none, w'')
      → read_address system (suc fuel) pipe [] w ≡ (err os_error, w'')
  unfolding read_address ◌>>=◌
  at_end fuel w w' w'' nothing e = bind-ok (system.read pipe) _ w w'' none e

  -- When the pipe ends and no line has said an address, the call fails.
  pub read_address-none :
      (fuel : ℕ) (ls : List Text) (w w' w'' : W)
      → length (machinefile_text ls) < fuel
      → All IsOther ls
      → Gives (machinefile_text ls) w w'
      → system.read pipe w' ≡ (ok none, w'')
      → read_address system fuel pipe [] w ≡ (err os_error, w'')
  read_address-none fuel ls w w' w'' h hs g e =
      let (w1, more, same) =
        read-others (suc (fuel - suc (length (machinefile_text ls)))) fuel ls [] w w' (omega arith)
          hs (subst (λ t. Gives t w w') (sym (append-nil (machinefile_text ls))) g) in
      same ∙ at_end (fuel - suc (length (machinefile_text ls))) w1 w' w'' more e

  failed_write :
      (fuel c : ℕ) (w : W)
      → (system.write pipe c w).0 ≡ ok (negsuc 0)
      → write_character system (suc fuel) pipe c w
        ≡ write_character system fuel pipe c (system.write pipe c w).1
  unfolding write_character
  failed_write fuel c w e =
      bind-ok (system.write pipe c) _ w (system.write pipe c w).1 (negsuc 0)
        (ap (λ r. (r, (system.write pipe c w).1)) e)

  -- A character whose writing fails each time, with -1, is tried again without end: however many tries
  -- there are, the call has not returned, and has not thrown the `IOError` that is meant for this.
  pub write_character-spins :
      (fuel c : ℕ) (w : W)
      → ((w : W) → (system.write pipe c w).0 ≡ ok (negsuc 0))
      → (write_character system fuel pipe c w).0 ≡ err undefined
  write_character-spins zero c w h = unfold write_character ◌>>=◌ in refl
  write_character-spins (suc fuel) c w h =
      ap (λ s. s.0) (failed_write fuel c w (h w))
      ∙ write_character-spins fuel c (system.write pipe c w).1 h
