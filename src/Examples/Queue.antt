-- ===== src/Examples/Queue.antt =====
-- The queue's theorems on the sample tables.
use mathlib.Core.List.{Memᴰ}
use pve_manage.Prelude.{ℕ, ◌≡◌, ◌⊎◌, refl, List, [], ◌∷◌, arith, All, inl, length}
use pve_manage.Tables.{delete}
use pve_manage.Tasks.Schedule.{select_tasks}
use pve_manage.Tasks.Sequence.{IsOrdered}
use pve_manage.Tasks.Steps.{QueueStep, queue, run, recover_all, perform_all, perform_all-IsOrdered}
use pve_manage.Tasks.Serial.{
  IsRunnable, select_tasks_sound, select_tasks_complete, select_tasks-OneEach,
}
use pve_manage.Tasks.Rows.{OneEach}
use pve_manage.Examples.{web, waiting_apply, tables, session_of}

pub tables-IsOrdered : IsOrdered tables
tables-IsOrdered = record {
  apart = ((((λ e. omega arith), (λ _ e. omega arith)), tt), (tt, tt));
  ids_below = (omega arith, (omega arith, tt));
}

abbrev steps : List (ℕ × QueueStep)
steps = (100, run 2) ∷ (110, queue 7 delete []) ∷ (120, recover_all) ∷ []

perform_all-IsOrdered_example : IsOrdered (perform_all steps (session_of tables)).db
perform_all-IsOrdered_example = perform_all-IsOrdered steps (session_of tables) tables-IsOrdered

select_tasks_sound_example : All (λ r. IsRunnable 100 tables r.0 r.1) (select_tasks 100 tables)
select_tasks_sound_example = select_tasks_sound 100 tables

waiting-IsRunnable : IsRunnable 100 tables waiting_apply web
waiting-IsRunnable = record {
  its_vm = refl;
  alive = refl;
  managed = refl;
  not_paused = refl;
  waiting = inl refl;
  first = ((λ _ _. refl), ((λ _ e. ground arith), tt));
}

select_tasks_complete_example :
    Memᴰ (waiting_apply, web) (select_tasks 100 tables) ⊎ (length (select_tasks 100 tables) ≡ 20)
select_tasks_complete_example =
    select_tasks_complete 100 tables waiting_apply web (Memᴰ.tail (Memᴰ.head refl))
      waiting-IsRunnable

select_tasks-OneEach_example : OneEach (select_tasks 100 tables)
select_tasks-OneEach_example = select_tasks-OneEach 100 tables tables-IsOrdered
