-- ===== src/Cloud/Upload.antt =====
-- What a window does with its queue.
use vray_for_houdini.Base.{
  ℕ, zero, suc, ◌≡◌, refl, sym, ap, ◌∙◌, ◌⊎◌, inl, inr, ◌≢◌, Bool, true, false, List, [], ◌∷◌, ◌++◌,
  append_assoc, append-nil, arith, length,
}
use vray_for_houdini.Qt.Text.{QString}
use vray_for_houdini.Cloud.Desk.{CloudCommand, Machine, CloudWindow, Desk, start}
use vray_for_houdini.Cloud.Window.{
  upload_completed, append_text, execute_client, upload_scene, on_proc_error, on_proc_finished,
}

-- `n` processes that end, one after the other.
unfoldable pub finishes : ℕ → Desk × CloudWindow → Desk × CloudWindow
unfolding on_proc_finished
finishes zero s = s
finishes (suc n) (d, w) = finishes n (on_proc_finished d w)

drain :
    (cs : List CloudCommand) (d : Desk) (w : CloudWindow)
    → let (d', w') = finishes (suc (length cs)) (d, record w { commands = cs }) in
      (d'.started ≡ d.started ++ cs)
      × (w'.commands ≡ [])
      × (w'.is_running ≡ false)
      × (w'.is_completed ≡ true)
unfolding finishes on_proc_finished execute_client upload_completed
drain [] d w = (sym (append-nil d.started), refl, refl, refl)
drain (c ∷ cs) d w =
    let next = drain cs (start c d) (record w { is_running = true }) in
    (next.0 ∙ append_assoc d.started (c ∷ []) cs, next.1, next.2, next.3)

-- If each process ends without an error, the window starts all commands of the upload, in order,
-- and once the last one has ended the upload is complete: nothing runs or waits.
pub finishes-upload_scene :
    (job : List CloudCommand) (d : Desk) (w : CloudWindow)
    → job ≢ []
    → let (d', w') = finishes (length job) (upload_scene job d w) in
      (d'.started ≡ d.started ++ job)
      × (w'.commands ≡ [])
      × (w'.is_running ≡ false)
      × (w'.is_completed ≡ true)
finishes-upload_scene [] d w h = absurd (h refl)
finishes-upload_scene (c ∷ cs) d w h =
    let next = drain cs (start c d) (record w { maximum = 0; is_running = true }) in
    unfold upload_scene in
    unfold execute_client in (next.0 ∙ append_assoc d.started (c ∷ []) cs, next.1, next.2, next.3)

-- What happens to an open window: output, an error of the process, and the end of the process.
pub data Step (m : Machine) : Desk × CloudWindow → Desk × CloudWindow → Type 0 where
  output : {d : Desk} {w : CloudWindow} (s : QString) → Step m (d, w) (d, append_text m s w)
  fails :
      {d : Desk} {w : CloudWindow} (runs : Bool)
      → w.is_running ≡ true
      → Step m (d, w) (d, on_proc_error runs w)
  ends : {d : Desk} {w : CloudWindow} → w.is_running ≡ true → Step m (d, w) (on_proc_finished d w)

pub data Reach (m : Machine) (s : Desk × CloudWindow) : Desk × CloudWindow → Type 0 where
  here : Reach m s s
  then : {t u : Desk × CloudWindow} → Reach m s t → Step m t u → Reach m s u

-- The commands `done` of the job are started, and either the rest waits behind a process that runs,
-- or the upload is over.
pub record IsUpload (base job : List CloudCommand) (s : Desk × CloudWindow) : Type 0 where
  pub done : List CloudCommand
  pub rest : List CloudCommand
  pub split : job ≡ done ++ rest
  pub started : s.0.started ≡ base ++ done
  pub queue :
      ((s.1.commands ≡ rest) × (s.1.is_running ≡ true))
      ⊎ ((s.1.commands ≡ []) × (s.1.is_completed ≡ true))

after_output :
    (m : Machine) (s : QString) (base job : List CloudCommand) (d : Desk) (w : CloudWindow)
    → IsUpload base job (d, w)
    → IsUpload base job (d, append_text m s w)
unfolding append_text
after_output m s base job d w u = record {
  done = u.done;
  rest = u.rest;
  split = u.split;
  started = u.started;
  queue = ground (arith, u.queue);
}

finished_empty :
    (d : Desk) (w : CloudWindow)
    → w.commands ≡ []
    → on_proc_finished d w ≡ (d, record w { is_running = false; is_completed = true })
unfolding on_proc_finished upload_completed
finished_empty d w h = ground arith

finished_next :
    (d : Desk) (w : CloudWindow) (c : CloudCommand) (cs : List CloudCommand)
    → w.commands ≡ c ∷ cs
    → on_proc_finished d w ≡ (start c d, record w { commands = cs; is_running = true })
unfolding on_proc_finished execute_client
finished_next d w c cs h = ground arith

after_running :
    (base job done rest : List CloudCommand) (d : Desk) (w : CloudWindow)
    → job ≡ done ++ rest
    → d.started ≡ base ++ done
    → w.commands ≡ rest
    → IsUpload base job (on_proc_finished d w)
after_running base job done [] d w split started waits =
    rw (finished_empty d w waits) (record {
      done = done;
      rest = [];
      split = split;
      started = started;
      queue = inr (waits, refl);
    })
after_running base job done (c ∷ cs) d w split started waits =
    rw (finished_next d w c cs waits) (record {
      done = done ++ c ∷ [];
      rest = cs;
      split = split ∙ sym (append_assoc done (c ∷ []) cs);
      started = ap (λ l. l ++ c ∷ []) started ∙ append_assoc base done (c ∷ []);
      queue = inl (refl, refl);
    })

after_finished :
    (base job : List CloudCommand) (d : Desk) (w : CloudWindow)
    → IsUpload base job (d, w)
    → IsUpload base job (on_proc_finished d w)
after_finished base job d w u = elim u.queue [
  | inl (waits, runs) ↦ after_running base job u.done u.rest d w u.split u.started waits
  | inr (empties, completed) ↦ rw (finished_empty d w empties) (record {
    done = u.done;
    rest = u.rest;
    split = u.split;
    started = u.started;
    queue = inr (empties, refl);
  })
]

step-IsUpload :
    (m : Machine) (base job : List CloudCommand) (s t : Desk × CloudWindow)
    → Step m s t
    → IsUpload base job s
    → IsUpload base job t
step-IsUpload m base job s t (Step.output text) u = after_output m text base job _ _ u
step-IsUpload m base job s t (Step.fails runs h) u =
    unfold on_proc_error in
    unfold upload_completed in
    record {
      done = u.done;
      rest = u.rest;
      split = u.split;
      started = u.started;
      queue = inr (refl, refl);
    }
step-IsUpload m base job s t (Step.ends h) u = after_finished base job _ _ u

IsUpload-Reach :
    (m : Machine) (base job : List CloudCommand) (s t : Desk × CloudWindow)
    → Reach m s t
    → IsUpload base job s
    → IsUpload base job t
IsUpload-Reach m base job s t Reach.here u = u
IsUpload-Reach m base job s t (Reach.then {t = r} path step) u =
    step-IsUpload m base job r t step (IsUpload-Reach m base job s r path u)

upload_scene-IsUpload :
    (c : CloudCommand) (cs : List CloudCommand) (d : Desk) (w : CloudWindow)
    → IsUpload d.started (c ∷ cs) (upload_scene (c ∷ cs) d w)
unfolding upload_scene execute_client
upload_scene-IsUpload c cs d w = record {
  done = c ∷ [];
  rest = cs;
  split = refl;
  started = refl;
  queue = inl (refl, refl);
}

-- Whatever a window meets after the start of an upload, the commands that it has started are the
-- first ones of the job, each once and in order; and either the others wait behind a process that
-- runs, or the upload is complete and nothing waits, so no command waits for a process that is
-- gone.
pub Reach-IsUpload :
    (m : Machine) (job : List CloudCommand) (d : Desk) (w : CloudWindow) (s : Desk × CloudWindow)
    → job ≢ []
    → Reach m (upload_scene job d w) s
    → IsUpload d.started job s
Reach-IsUpload m [] d w s h path = absurd (h refl)
Reach-IsUpload m (c ∷ cs) d w s h path =
    IsUpload-Reach m d.started (c ∷ cs) _ s path (upload_scene-IsUpload c cs d w)
