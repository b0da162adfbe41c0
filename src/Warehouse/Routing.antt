-- ===== src/Warehouse/Routing.antt =====
-- While no connection ends, what comes in is answered where it came from.
use arl_hierarchical_multisc.Base.{
  map-append, ℕ, zero, suc, ◌≤◌, ◌≡◌, refl, sym, ◌∙◌, ap, some, none, drop, List, [], ◌∷◌, ◌++◌,
  map, length, get_elem?, arith, append-nil, append_assoc,
}
use arl_hierarchical_multisc.Base.Effect.{
  lift-bind, bind_assoc, pure-bind, M, ok, pure, ◌>>=◌, ◌>>◌,
}
use arl_hierarchical_multisc.ModelPackage.{ModelPackage, Handle, add_communicator}
use arl_hierarchical_multisc.Warehouse.{
  Carrier, send_to, set_communicator, attempt, receive_one, receive_from, receive, ship,
}

-- Each communicator of the list, in turn, has a batch of packages.
pub data Receives {W : Type 0} (carrier : Carrier W)
    : W → List Handle → W → List (List ModelPackage) → Type 0 where
  done : {w : W} → Receives carrier w [] w []
  next :
      {w w₁ w' : W} {h : Handle} {ds : List Handle} {batch : List ModelPackage}
      {batches : List (List ModelPackage)}
      → carrier.receive h w ≡ (ok batch, w₁)
      → Receives carrier w₁ ds w' batches
      → Receives carrier w (h ∷ ds) w' (batch ∷ batches)

-- The packages of all batches, each marked with the number of its batch.
abbrev pub marked : ℕ → List (List ModelPackage) → List ModelPackage
marked i [] = []
marked i (b ∷ bs) = set_communicator i b ++ marked (suc i) bs

-- The communicators from a position on, and the first of them.
get_elem?-drop_nil : (i : ℕ) (ds : List Handle) → drop i ds ≡ [] → get_elem? ds i ≡ none
get_elem?-drop_nil i [] e = refl
get_elem?-drop_nil zero (d ∷ ds) e = absurd (cc)
get_elem?-drop_nil (suc i) (d ∷ ds) e = get_elem?-drop_nil i ds e

get_elem?-drop_cons :
    (i : ℕ) (ds : List Handle) (h : Handle) (rest : List Handle)
    → drop i ds ≡ h ∷ rest
    → (get_elem? ds i ≡ some h) × (drop (suc i) ds ≡ rest)
get_elem?-drop_cons zero [] h rest e = absurd (cc)
get_elem?-drop_cons (suc i) [] h rest e = absurd (cc)
get_elem?-drop_cons zero (d ∷ ds) h rest e = ground arith
get_elem?-drop_cons (suc i) (d ∷ ds) h rest e = get_elem?-drop_cons i ds h rest e

module _ {W : Type 0} (carrier : Carrier W) where
  receive_one_lem :
      (h : Handle) (i : ℕ) (ds : List Handle) (w w' : W) (b : List ModelPackage)
      → carrier.receive h w ≡ (ok b, w')
      → receive_one carrier h i i ds w ≡ (ok (suc i, ds, set_communicator i b), w')
  unfolding receive_one attempt ◌>>=◌
  receive_one_lem h i ds w w' b e = rw e

  -- From a position on, with fuel for the communicators that are left.
  receive_from-Receives :
      (fuel i : ℕ) (ds : List Handle) (got : List ModelPackage) {w w' : W} {rest : List Handle}
      {bs : List (List ModelPackage)}
      → Receives carrier w rest w' bs
      → drop i ds ≡ rest
      → length rest ≤ fuel
      → receive_from carrier fuel i i ds got w ≡ (ok (ds, got ++ marked i bs), w')
  unfolding receive_from ◌>>=◌
  receive_from-Receives zero i ds got done at_end enough = rw (append-nil got)
  receive_from-Receives (suc fuel) i ds got done at_end enough =
      rw (get_elem?-drop_nil i ds at_end, receive_from, append-nil got)
  receive_from-Receives zero i ds got (next e r) at_next enough = absurd (omega arith)
  receive_from-Receives (suc fuel) i ds got {w} {w'}
        (next {w₁ = w₁} {h = h} {ds = rest} {batch = b} {batches = bs} e r) at_next enough =
      let (here, after) = get_elem?-drop_cons i ds h rest at_next in
      let later =
        receive_from-Receives fuel (suc i) ds (got ++ set_communicator i b) r after (omega arith) in
      rw (here, receive_from, receive_one_lem h i ds w w₁ b e)
        (later
          ∙ ap (λ l. (ok (ds, l), w'))
              (append_assoc got (set_communicator i b) (marked (suc i) bs)))

  batches-length :
      {w w' : W} {ds : List Handle} {bs : List (List ModelPackage)}
      → Receives carrier w ds w' bs
      → length bs ≡ length ds
  batches-length done = refl
  batches-length (next e r) = ap suc (batches-length r)

  -- Sends the answers of a batch to its communicator.
  abbrev pub answer_batch :
      (ModelPackage → ModelPackage) → Handle → List ModelPackage → M W (Unit {0})
  answer_batch f h [] = pure tt
  answer_batch f h (p ∷ ps) = carrier.send h (f p) >> answer_batch f h ps

  -- Sends the answers of each batch to its communicator.
  abbrev pub answer :
      (ModelPackage → ModelPackage) → List Handle → List (List ModelPackage) → M W (Unit {0})
  answer f [] bs = pure tt
  answer f (h ∷ ds) [] = pure tt
  answer f (h ∷ ds) (b ∷ bs) = answer_batch f h b >> answer f ds bs

  module _ (f : ModelPackage → ModelPackage)
      (f_keeps : (p : ModelPackage) (i : ℕ)
        → f (add_communicator p i) ≡ add_communicator (f p) i) where
    ship_one :
        (ds : List Handle) (i : ℕ) (h : Handle) (p : ModelPackage) (ps : List ModelPackage)
        → get_elem? ds i ≡ some h
        → ship carrier ds (add_communicator p i ∷ ps) ≡ (carrier.send h p >> ship carrier ds ps)
    unfolding ship
    ship_one ds i h p ps e =
        lift-bind (p, i) _ ∙ ap (λ o. send_to carrier o p >> ship carrier ds ps) e

    ship-batch :
        (ds : List Handle) (i : ℕ) (h : Handle) (b more : List ModelPackage)
        → get_elem? ds i ≡ some h
        → ship carrier ds (map f (set_communicator i b) ++ more)
          ≡ (answer_batch f h b >> ship carrier ds more)
    ship-batch ds i h [] more e = sym (pure-bind _ _)
    ship-batch ds i h (p ∷ b) more e = rw f_keeps (
        ship_one ds i h (f p) _ e
        ∙ ap (λ k. carrier.send h (f p) >> k) (ship-batch ds i h b more e)
        ∙ sym (bind_assoc _ _ _))

    ship-answer :
        (i : ℕ) (ds rest : List Handle) (bs : List (List ModelPackage))
        → drop i ds ≡ rest
        → length bs ≡ length rest
        → ship carrier ds (map f (marked i bs)) ≡ answer f rest bs
    unfolding ship
    ship-answer i ds [] [] e same = refl
    ship-answer i ds [] (b ∷ bs) e same = absurd (omega arith)
    ship-answer i ds (h ∷ rest) [] e same = absurd (omega arith)
    ship-answer i ds (h ∷ rest) (b ∷ bs) e same =
        let (here, after) = get_elem?-drop_cons i ds h rest e in
        ap (ship carrier ds) (map-append f (set_communicator i b) (marked (suc i) bs))
        ∙ ship-batch ds i h b (map f (marked (suc i) bs)) here
        ∙ ap (λ k. answer_batch f h b >> k) (ship-answer (suc i) ds rest bs after (omega arith))

    -- While each communicator has a batch and none ends, a call of `receive` returns the packages of
    -- all batches and keeps the communicators. When those packages are shipped, in that order and
    -- whatever has been written in them but their communicator ids, each goes to the communicator that
    -- it came from, with the communicator ids that it came with.
    pub ship_answers_receive :
        (h : Handle) (ds : List Handle) (w w' : W) (bs : List (List ModelPackage))
        → Receives carrier w (h ∷ ds) w' bs
        → (ps : List ModelPackage) × (receive carrier (h ∷ ds) w ≡ (ok (h ∷ ds, ps), w'))
          × (ship carrier (h ∷ ds) (map f ps) ≡ answer f (h ∷ ds) bs)
    unfolding receive
    ship_answers_receive h ds w w' bs r = (
      marked 0 bs,
      receive_from-Receives (length (h ∷ ds)) 0 (h ∷ ds) [] r refl (omega arith),
      ship-answer 0 (h ∷ ds) (h ∷ ds) bs refl (batches-length r),
    )
