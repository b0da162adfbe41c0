-- ===== src/MpiCommand/Settling.antt =====
-- What has happened to a command's process when `MPICommand::getStatus` returns.
use arl_hierarchical_multisc.Base.{◌≡◌, refl, ap, sym, ◌∙◌, subst, Bool, true, false, if◌then◌else◌}
use arl_hierarchical_multisc.Base.Int.{ℤ, negsuc}
use arl_hierarchical_multisc.Base.Effect.{
  ok, M, throw, pure, ◌>>=◌, bind-returns, pure-returns, throw-returns, Ensures-returns, os_error,
  Exception,
}
use arl_hierarchical_multisc.ModelPackage.{Clock}
use arl_hierarchical_multisc.Command.{Command, CommandStatus, ticket}
use arl_hierarchical_multisc.MpiCommand.{
  Processes, is_zero, is_minus_one, terminate, all_hold, end, check_running, get_status,
}
use arl_hierarchical_multisc.MpiCommand.Lifecycle.{get_status-IsSame}

-- A guard that has not thrown.
passed :
    {W A : Type 0} (b : Bool) (x : Exception) (m : M W A) (w w' : W) (a : A)
    → (if b then throw x else m) w ≡ (ok a, w')
    → (b ≡ false) × (m w ≡ (ok a, w'))
passed true x m w w' a e = absurd (throw-returns x w e)
passed false x m w w' a e = (refl, e)

module _ {W : Type 0} (clock : Clock W) (processes : Processes W) where
  open processes use {poll, wait, kill}

  -- A process that is known not to run in the world `w'`: none was left; or `waitpid` has reported its
  -- end; or a status predicate did not hold, and it was killed and waited for.
  pub data IsGone (c : Command) (w w' : W) : Type 0 where
    none_left : is_minus_one c.running_process ≡ true → w ≡ w' → IsGone c w w'
    ended :
        (status : ℤ)
        → poll c.running_process w ≡ (ok status, w')
        → is_minus_one status ≡ false
        → is_zero status ≡ false
        → IsGone c w w'
    killed :
        (status done waited : ℤ) (w₁ w₂ w₃ : W)
        → poll c.running_process w ≡ (ok status, w₁)
        → is_zero status ≡ true
        → all_hold clock processes true c.status_predicates c w₁ ≡ (ok false, w₂)
        → kill c.running_process w₂ ≡ (ok done, w₃)
        → is_minus_one done ≡ false
        → wait c.running_process w₃ ≡ (ok waited, w')
        → is_minus_one waited ≡ false
        → IsGone c w w'

  -- Its end was noted in the world `w₁`, and the end predicates have decided the status from there.
  pub record HasEnded (c : Command) (status : CommandStatus) (c' : Command) (w w' : W)
      : Type 0 where
    pub gone_in : W
    pub asked_in : W
    pub gone : IsGone c w gone_in
    pub process : c'.running_process ≡ negsuc 0
    pub judged : Bool
    pub predicates : all_hold clock processes true c'.end_predicates c' asked_in ≡ (ok judged, w')
    pub verdict : status ≡ (if judged then CommandStatus.completed else CommandStatus.error)

  -- A command that runs has a process, which `waitpid` did not report, and all status predicates held.
  pub record Runs (c : Command) (c' : Command) (w w' : W) : Type 0 where
    pub has_process : is_minus_one c.running_process ≡ false
    pub same : c' ≡ c
    pub polled_in : W
    pub answer : ℤ
    pub polled : poll c.running_process w ≡ (ok answer, polled_in)
    pub alive : is_zero answer ≡ true
    pub predicates : all_hold clock processes true c.status_predicates c polled_in ≡ (ok true, w')

  abbrev pub IsSettled : Command → CommandStatus → Command → (w w' : W) → Type 0
  IsSettled c CommandStatus.running c' w w' = Runs c c' w w'
  IsSettled c CommandStatus.completed c' w w' = HasEnded c CommandStatus.completed c' w w'
  IsSettled c CommandStatus.error c' w w' = HasEnded c CommandStatus.error c' w w'

  settled :
      (c c' : Command) (status : CommandStatus) (judged : Bool) (w w' : W)
      → status ≡ (if judged then CommandStatus.completed else CommandStatus.error)
      → HasEnded c status c' w w'
      → IsSettled c status c' w w'
  settled c c' CommandStatus.completed judged w w' e h = h
  settled c c' CommandStatus.error judged w w' e h = h
  settled c c' CommandStatus.running true w w' e h = absurd (cc)
  settled c c' CommandStatus.running false w w' e h = absurd (cc)

  end-IsSettled :
      (c k c' : Command) (status : CommandStatus) (w w₁ w' : W)
      → IsGone c w w₁
      → end clock processes k w₁ ≡ (ok (status, c'), w')
      → IsSettled c status c' w w'
  unfolding end
  end-IsSettled c k c' status w w₁ w' gone e =
      let (time, w₂, timed, after) = bind-returns clock.get_time _ w₁ w' (status, c') e in
      let (judged, w₃, asked, returned) = bind-returns _ _ w₂ w' (status, c') after in
      let (result, still) = pure-returns returned in
      let verdict = ap (λ r. r.0) (sym result) in
      settled c c' status judged w w' verdict (record {
        gone_in = w₁;
        asked_in = w₂;
        gone = gone;
        process = ap (λ r. r.1.running_process) (sym result);
        judged = judged;
        predicates =
            subst (λ x. all_hold clock processes true x.end_predicates x w₂ ≡ (ok judged, w'))
              (ap (λ r. r.1) result) (asked ∙ ap (λ v. (ok judged, v)) still);
        verdict = verdict;
      })

  terminate-killed :
      (c c' : Command) (w w' : W)
      → terminate clock processes c w ≡ (ok c', w')
      → (done : ℤ) × (waited : ℤ) × (w₁ : W) × (kill c.running_process w ≡ (ok done, w₁))
        × (is_minus_one done ≡ false)
        × (wait c.running_process w₁ ≡ (ok waited, w'))
        × (is_minus_one waited ≡ false)
  unfolding terminate
  terminate-killed c c' w w' e =
      let (done, w₁, was_killed, after) = bind-returns (kill c.running_process) _ w w' c' e in
      let (well, go_on) = passed (is_minus_one done) os_error _ w₁ w' c' after in
      let (waited, w₂, awaited, rest) = bind-returns (wait c.running_process) _ w₁ w' c' go_on in
      let (fine, returned) = passed (is_minus_one waited) os_error _ w₂ w' c' rest in
      let (same, still) = pure-returns returned in
      (done, waited, w₁, was_killed, well, awaited ∙ ap (λ v. (ok waited, v)) still, fine)

  check_running-IsSettled :
      (c c' : Command) (status : CommandStatus) (answer : ℤ) (w w₁ w' : W)
      → is_minus_one c.running_process ≡ false
      → poll c.running_process w ≡ (ok answer, w₁)
      → is_zero answer ≡ true
      → check_running clock processes c w₁ ≡ (ok (status, c'), w')
      → IsSettled c status c' w w'
  unfolding check_running
  check_running-IsSettled c c' status answer w w₁ w' has polled alive e =
      let (going, w₂, asked, after) = bind-returns _ _ w₁ w' (status, c') e in
      decided going w₂ asked after
    where
      decided :
          (going : Bool) (w₂ : W)
          → all_hold clock processes true c.status_predicates c w₁ ≡ (ok going, w₂)
          → (if going
                then pure (CommandStatus.running, c)
                else (terminate clock processes c >>= end clock processes))
              w₂
            ≡ (ok (status, c'), w')
          → IsSettled c status c' w w'
      decided true w₂ asked after =
          let (result, still) = pure-returns after in
          subst (λ r. IsSettled c r.0 r.1 w w') result
            (record {
              has_process = has;
              same = refl;
              polled_in = w₁;
              answer = answer;
              polled = polled;
              alive = alive;
              predicates = asked ∙ ap (λ v. (ok true, v)) still;
            })
      decided false w₂ asked after =
          let (k, w₄, stopped, rest) =
            bind-returns (terminate clock processes c) _ w₂ w' (status, c') after in
          let (done, waited, w₃, was_killed, well, awaited, fine) =
            terminate-killed c k w₂ w₄ stopped in
          end-IsSettled c k c' status w w₄ w'
            (killed answer done waited w₁ w₂ w₃ polled alive asked was_killed well awaited fine)
            rest

  get_status-IsSettled :
      (c c' : Command) (status : CommandStatus) (w w' : W)
      → get_status clock processes c w ≡ (ok (status, c'), w')
      → IsSettled c status c' w w'
  unfolding get_status
  get_status-IsSettled c c' status w w' e = by_process (is_minus_one c.running_process) refl e
    where
      by_answer :
          (zero_or_not : Bool) (answer : ℤ) (w₁ : W)
          → is_minus_one c.running_process ≡ false
          → poll c.running_process w ≡ (ok answer, w₁)
          → is_minus_one answer ≡ false
          → is_zero answer ≡ zero_or_not
          → (if zero_or_not then check_running clock processes c else end clock processes c) w₁
            ≡ (ok (status, c'), w')
          → IsSettled c status c' w w'
      by_answer true answer w₁ has polled well alive after =
          check_running-IsSettled c c' status answer w w₁ w' has polled alive after
      by_answer false answer w₁ has polled well over after =
          end-IsSettled c c c' status w w₁ w' (ended answer polled well over) after

      by_process :
          (no_process : Bool)
          → is_minus_one c.running_process ≡ no_process
          → (if no_process
                then end clock processes c
                else (poll c.running_process >>= λ answer.
                    if is_minus_one answer
                    then throw os_error
                    else if is_zero answer
                    then check_running clock processes c
                    else end clock processes c))
              w
            ≡ (ok (status, c'), w')
          → IsSettled c status c' w w'
      by_process true none after = end-IsSettled c c c' status w w w' (none_left none refl) after
      by_process false has after =
          let (answer, w₁, polled, rest) =
            bind-returns (poll c.running_process) _ w w' (status, c') after in
          let (well, go_on) = passed (is_minus_one answer) os_error _ w₁ w' (status, c') rest in
          by_answer (is_zero answer) answer w₁ has polled well refl go_on

  -- When `getStatus` returns RUNNING, the command is as before and has a process, whose end `waitpid`
  -- has not reported, and all its status predicates have held. When it returns COMPLETED or ERROR, the
  -- command's process is -1, and before that was set either it was -1 already, or `waitpid` has reported
  -- its end, or a status predicate did not hold and `kill` and then `waitpid` have returned without an
  -- error for the process that the command had; after that the end predicates have been evaluated, and
  -- the status is COMPLETED just where all of them held. In each case what is settled of the command and
  -- its resources are as before.
  pub get_status_settles :
      (c c' : Command) (status : CommandStatus) (w w' : W)
      → get_status clock processes c w ≡ (ok (status, c'), w')
      → (ticket c' ≡ ticket c) × (c'.resources ≡ c.resources) × IsSettled c status c' w w'
  get_status_settles c c' status w w' e =
      let (same, kept) =
        Ensures-returns (get_status-IsSame clock processes c) w w' (status, c') e in
      (same, kept, get_status-IsSettled c c' status w w' e)
