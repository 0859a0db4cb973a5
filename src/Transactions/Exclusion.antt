-- ===== src/Transactions/Exclusion.antt =====
-- tinydb/transaction.py: what the methods keep, for all the managers of a process.
use tinydb_sueprflow.Prelude.{
  ℕ, ◌≡◌, ◌≢◌, refl, sym, ap, ◌∙◌, subst, false, true, Bool, ◌||◌, ◌⊎◌, inl, inr, Text, text_eq,
  text_eq_refl, text_eq→eq, some, [], Bool-cases, arith,
}
use tinydb_sueprflow.Storage.State.{State, Codec}
use tinydb_sueprflow.Transactions.{Session, active_in, begin, commit, rollback, close}
use tinydb_sueprflow.Transactions.Outcomes.{Idle, Began, Ended, rollback_either, close_either}
use tinydb_sueprflow.Transactions.Writers.{
  Process, view, update, after, Step, Reachable, Sound, same_or_not, active_in-discard, Change,
  Change-either, begin-Change, commit-Change, same, began, ended, begins, commits, rolls_back,
  closes, works, started, stepped,
}

or-true : (a b : Bool) → b ≡ true → (a || b) ≡ true
or-true a b h = ground (arith, h)

module _ {W : Type 0} where
  -- What a change of one manager does to the fields of all.
  update_same : (i : ℕ) (s : Session W) (manager : ℕ → Session W) → update i s manager i ≡ s
  update_same i s manager = ground arith

  update_other :
      (i j : ℕ) (s : Session W) (manager : ℕ → Session W) → i ≢ j → update i s manager j ≡ manager j
  update_other i j s manager apart = ground (arith, apart)

  module _ (i : ℕ) (p : Process W) (s : Session W) (sound : Sound p) where
    kept_field :
        {B : Type 0} (f : Session W → B)
        → f s ≡ f (p.manager i)
        → (j : ℕ) → f ((after i s p).manager j) ≡ f (p.manager j)
    kept_field f e j = elim (same_or_not i j) [
      | inl here ↦
          subst (λ k. f (update i s p.manager k) ≡ f (p.manager k)) here
            (ap f (update_same i s p.manager) ∙ e)
      | inr apart ↦ ap f (update_other i j s p.manager apart)
    ]

    Sound-same :
        s.writer_path ≡ (p.manager i).writer_path
        → s.in_transaction ≡ (p.manager i).in_transaction
        → s.lock_handle ≡ (p.manager i).lock_handle
        → s.lock_path ≡ (p.manager i).lock_path
        → s.active_writers ≡ p.active_writers
        → Sound (after i s p)
    Sound-same writer in_transaction handle path writers =
        let same_writer = kept_field (λ (t : Session W). t.writer_path) writer in
        let same_transaction = kept_field (λ (t : Session W). t.in_transaction) in_transaction in
        let same_handle = kept_field (λ (t : Session W). t.lock_handle) handle in
        let same_path = kept_field (λ (t : Session W). t.lock_path) path in
        record {
          held = λ j q e. ap (active_in q) writers ∙ sound.held j q (sym (same_writer j) ∙ e);
          apart = λ j k q ne e e'.
              sound.apart j k q ne (sym (same_writer j) ∙ e) (sym (same_writer k) ∙ e');
          own = λ j e.
              same_writer j
              ∙ sound.own j (sym (same_transaction j) ∙ e)
              ∙ ap some (sym (same_path j));
          idle = λ j e.
              let (t, w, h) = sound.idle j (sym (same_transaction j) ∙ e) in
              (same_transaction j ∙ t, same_writer j ∙ w, same_handle j ∙ h);
        }

    -- Each manager after the method is the changed one, or as before.
    each :
        (j : ℕ)
        → ((i ≡ j) × ((after i s p).manager j ≡ s))
          ⊎ ((i ≢ j) × ((after i s p).manager j ≡ p.manager j))
    each j = elim (same_or_not i j) [
      | inl here ↦
          inl (here, subst (λ k. update i s p.manager k ≡ s) here (update_same i s p.manager))
      | inr apart ↦ inr (apart, update_other i j s p.manager apart)
    ]

    writer_of :
        (t t' : Session W) (q : Text) → t ≡ t' → t.writer_path ≡ some q → t'.writer_path ≡ some q
    writer_of t t' q e h = sym (ap (λ (u : Session W). u.writer_path) e) ∙ h

    Sound-Began : Began (view i p) s → Sound (after i s p)
    Sound-Began (free, writers, active, writer, snapshot, path) = record {
      held = held';
      apart = apart';
      own = own';
      idle = idle';
    }
      where
        mine : (q : Text) → s.writer_path ≡ some q → q ≡ (p.manager i).lock_path
        mine q h = cc (writer, h)

        taken :
            (k : ℕ) (q : Text) → q ≡ (p.manager i).lock_path → (p.manager k).writer_path ≢ some q
        taken k q e h =
            cc (ap (λ (r : Text). active_in r p.active_writers) e, sound.held k q h, free)

        held' :
            (j : ℕ) (q : Text)
            → ((after i s p).manager j).writer_path ≡ some q
            → active_in q s.active_writers ≡ true
        held' j q h = elim (each j) [
          | inl (here, e) ↦
              rw
                (
                  writers,
                  mine q (writer_of ((after i s p).manager j) s q e h),
                  text_eq_refl (p.manager i).lock_path,
                )
                refl
          | inr (ne, e) ↦
              let before =
                sound.held j q (writer_of ((after i s p).manager j) (p.manager j) q e h) in
              rw writers
                (or-true (text_eq q (p.manager i).lock_path) (active_in q p.active_writers) before)
        ]

        apart' :
            (j k : ℕ) (q : Text)
            → j ≢ k
            → ((after i s p).manager j).writer_path ≡ some q
            → ((after i s p).manager k).writer_path ≢ some q
        apart' j k q ne h h' = elim (each j) [
          | inl (here, e) ↦ elim (each k) [
            | inl (here', e') ↦ ne (sym here ∙ here')
            | inr (_, e') ↦
                taken k q (mine q (writer_of ((after i s p).manager j) s q e h))
                  (writer_of ((after i s p).manager k) (p.manager k) q e' h')
          ]
          | inr (_, e) ↦ elim (each k) [
            | inl (_, e') ↦
                taken j q (mine q (writer_of ((after i s p).manager k) s q e' h'))
                  (writer_of ((after i s p).manager j) (p.manager j) q e h)
            | inr (_, e') ↦
                sound.apart j k q ne (writer_of ((after i s p).manager j) (p.manager j) q e h)
                  (writer_of ((after i s p).manager k) (p.manager k) q e' h')
          ]
        ]

        own' :
            (j : ℕ)
            → ((after i s p).manager j).in_transaction ≡ true
            → ((after i s p).manager j).writer_path ≡ some ((after i s p).manager j).lock_path
        own' j h = elim (each j) [
          | inl (here, e) ↦ rw e (writer ∙ ap some (sym path))
          | inr (ne, e) ↦ rw e (sound.own j (rw e at h))
        ]

        idle' :
            (j : ℕ)
            → ((after i s p).manager j).in_transaction ≡ false
            → Idle ((after i s p).manager j)
        idle' j h = elim (each j) [
          | inl (here, e) ↦ cc (ap (λ (t : Session W). t.in_transaction) e, h, active)
          | inr (ne, e) ↦ rw e (sound.idle j (rw e at h))
        ]

    Sound-Ended : Ended (view i p) s → (p.manager i).in_transaction ≡ true → Sound (after i s p)
    Sound-Ended ((inactive, no_writer, no_handle), writers, path) active = record {
      held = held';
      apart = apart';
      own = own';
      idle = idle';
    }
      where
        lock_path : Text
        lock_path = (p.manager i).lock_path

        none_here :
            (q : Text) (j : ℕ)
            → ((after i s p).manager j) ≡ s
            → ((after i s p).manager j).writer_path ≢ some q
        none_here q j e h = cc (writer_of ((after i s p).manager j) s q e h, no_writer)

        others :
            (q : Text) (j : ℕ)
            → i ≢ j
            → (p.manager j).writer_path ≡ some q
            → text_eq lock_path q ≡ false
        others q j ne h = elim (Bool-cases (text_eq lock_path q)) [
          | inr apart ↦ apart
          | inl e ↦
              absurd
                (sound.apart i j q ne (sound.own i active ∙ ap some (text_eq→eq lock_path q e)) h)
        ]

        held' :
            (j : ℕ) (q : Text)
            → ((after i s p).manager j).writer_path ≡ some q
            → active_in q s.active_writers ≡ true
        held' j q h = elim (each j) [
          | inl (_, e) ↦ absurd (none_here q j e h)
          | inr (ne, e) ↦
              let h' = writer_of ((after i s p).manager j) (p.manager j) q e h in
              rw (writers, sound.own i active)
                (active_in-discard q lock_path p.active_writers (others q j ne h')
                  (sound.held j q h'))
        ]

        apart' :
            (j k : ℕ) (q : Text)
            → j ≢ k
            → ((after i s p).manager j).writer_path ≡ some q
            → ((after i s p).manager k).writer_path ≢ some q
        apart' j k q ne h h' = elim (each j) [
          | inl (_, e) ↦ none_here q j e h
          | inr (_, e) ↦ elim (each k) [
            | inl (_, e') ↦ none_here q k e' h'
            | inr (_, e') ↦
                sound.apart j k q ne (writer_of ((after i s p).manager j) (p.manager j) q e h)
                  (writer_of ((after i s p).manager k) (p.manager k) q e' h')
          ]
        ]

        own' :
            (j : ℕ)
            → ((after i s p).manager j).in_transaction ≡ true
            → ((after i s p).manager j).writer_path ≡ some ((after i s p).manager j).lock_path
        own' j h = elim (each j) [
          | inl (here, e) ↦ cc (ap (λ (t : Session W). t.in_transaction) e, h, inactive)
          | inr (ne, e) ↦ rw e (sound.own j (rw e at h))
        ]

        idle' :
            (j : ℕ)
            → ((after i s p).manager j).in_transaction ≡ false
            → Idle ((after i s p).manager j)
        idle' j h = elim (each j) [
          | inl (here, e) ↦ rw e (inactive, no_writer, no_handle)
          | inr (ne, e) ↦ rw e (sound.idle j (rw e at h))
        ]

    Sound-Change : Change (view i p) s → Sound (after i s p)
    Sound-Change (same writer in_transaction handle path writers) =
        Sound-same writer in_transaction handle path writers
    Sound-Change (began b) = Sound-Began b
    Sound-Change (ended e active) = Sound-Ended e active

  module _ ⦃codec : Codec State⦄ where
    Sound-Step : (p p' : Process W) → Step p p' → Sound p → Sound p'
    Sound-Step _ _ (begins i p) sound =
        Sound-Change i p (begin (view i p)).1 sound (begin-Change (view i p) (sound.idle i))
    Sound-Step _ _ (commits i p) sound =
        Sound-Change i p (commit (view i p)).1 sound (commit-Change (view i p))
    Sound-Step _ _ (rolls_back i p) sound =
        Sound-Change i p (rollback (view i p)).1 sound
          (Change-either (view i p) (rollback (view i p)).1 (rollback_either (view i p)))
    Sound-Step _ _ (closes i p) sound =
        Sound-Change i p (close (view i p)).1 sound
          (Change-either (view i p) (close (view i p)).1 (close_either (view i p)))
    Sound-Step _ _ (works i storage w p) sound =
        Sound-same i p (record (view i p) { storage = storage; world = w }) sound refl refl refl
          refl refl

    Sound-Reachable : (start p : Process W) → Reachable start p → Sound start → Sound p
    Sound-Reachable start _ started sound = sound
    Sound-Reachable start _ (stepped p p' steps step) sound =
        Sound-Step p p' step (Sound-Reachable start p steps sound)

    -- The managers of a process start with no transaction, no writer and no lock, and no path has a writer.
    -- Whatever they then do, in whatever order, two different managers that are in a transaction at the
    -- same time have different paths.
    pub one_writer :
        (start p : Process W) (i j : ℕ)
        → ((k : ℕ) → Idle (start.manager k))
        → start.active_writers ≡ []
        → Reachable start p
        → i ≢ j
        → (p.manager i).in_transaction ≡ true
        → (p.manager j).in_transaction ≡ true
        → (p.manager i).lock_path ≢ (p.manager j).lock_path
    one_writer start p i j idle no_writers steps ne active active' e =
        let sound_start : Sound start = record {
          held = λ k q h. cc (h, (idle k).1);
          apart = λ k l q ne h h'. cc (h, (idle k).1);
          own = λ k h. cc (h, (idle k).0);
          idle = λ k h. idle k;
        } in
        let sound = Sound-Reachable start p steps sound_start in
        sound.apart i j (p.manager i).lock_path ne (sound.own i active)
          (sound.own j active' ∙ ap some (sym e))
