-- ===== src/Ensure/Offline.antt =====
-- The calls of `cleanup_offline` and `raise_if_inconsistent`, as to what they give up.
use fc_qemu.Base.{true, false, refl, Option, List, [], ◌∷◌, type_error, vm_state_inconsistent, ◌==◌}
use fc_qemu.World.{
  Image, Locker, Call, Event, Env, get_state, call, Emits, Emits-bind, Emits-if, Emits-pure,
  Emits-raise, Emits-option, Emits-mono, Emits-except, Emits-reply,
}
use fc_qemu.Qemu.Quiet.{Quiet, is_running-Quiet, find_process-Quiet, get_state-Quiet}
use fc_qemu.Volume.Calls.{Looks, lock_status-Looks}
use fc_qemu.Ceph as Ceph
use fc_qemu.Ceph.{all_mine, lock_id, is_type_error}
use fc_qemu.Ceph.Calls as Ceph_calls
use fc_qemu.Ceph.Specs.Harmless.{attach_volumes-Harmless, Harmless→Release}
use fc_qemu.Agent.{raise_if_inconsistent, is_consistent}
use fc_qemu.Agent.Careful.{
  Never, Release, LockCall-Release, consul_deregister-Release, cleanup-Release,
}
use fc_qemu.Ensure.{Wanted, cleanup_offline}

module _ {E : Event → Type 0} (looks : (v : Image) (e : Event) → Looks v e → E e) (env : Env) where
  lock_id-Emits : (s : Option Locker) → Emits E (lock_id s)
  lock_id-Emits s = Emits-option s (Emits-raise type_error) (λ l. Emits-pure l.id)

  all_mine-Emits : (vs : List Image) → Emits E (all_mine env vs)
  unfolding all_mine
  all_mine-Emits [] = Emits-pure true
  all_mine-Emits (v ∷ vs) = Emits-bind (Emits-mono (looks v) (lock_status-Looks env v)) (λ s.
      Emits-bind (lock_id-Emits s)
        (λ id. Emits-if (id == env.host) (all_mine-Emits vs) (Emits-pure false)))

Looks→Quiet : (v : Image) (e : Event) → Looks v e → Quiet e
Looks→Quiet v (Event.image_opened u r) h = refl
Looks→Quiet v (Event.lock_listed u r) h = refl
Looks→Quiet v _ h = elim h [ ]

Looks→Release : (v : Image) (e : Event) → Looks v e → Release e
Looks→Release v (Event.image_opened u r) h t k = k
Looks→Release v (Event.lock_listed u r) h t k = k
Looks→Release v _ h t k = elim h [ ]

module _ (env : Env) (cfg : Wanted) where
  mine-Quiet : Emits Quiet (Ceph.locked_by_me env)
  unfolding Ceph.locked_by_me get_state
  mine-Quiet = Emits-bind get_state-Quiet (λ w. Emits-if _ (Emits-pure false) (
      Emits-except (all_mine-Emits Looks→Quiet env w.volumes)
        (λ e. Emits-if (is_type_error e) (Emits-pure false) (Emits-raise e))))

  mine-Release : Emits Release (Ceph.locked_by_me env)
  unfolding Ceph.locked_by_me get_state
  mine-Release =
      Emits-bind (record { keeps = λ T s w h. h; spares = λ s w h. h })
        (λ w. Emits-if _ (Emits-pure false) (
          Emits-except (all_mine-Emits Looks→Release env w.volumes)
            (λ e. Emits-if (is_type_error e) (Emits-pure false) (Emits-raise e))))

  call-Release : (c : Call) → Emits Release (call env c)
  unfolding call
  call-Release c = Emits-reply _ _ (λ w t h. h)

  pub cleanup_offline-Release : Emits Release (cleanup_offline env cfg)
  unfolding cleanup_offline
  cleanup_offline-Release = Emits-bind (call-Release Call.run_files_listed) (λ any_left.
      Emits-if any_left
        (Emits-bind (Emits-mono Harmless→Release (attach_volumes-Harmless env)) (λ _.
          Emits-bind mine-Release (λ mine.
            Emits-bind
              (Emits-if mine (Emits-mono LockCall-Release (Ceph_calls.unlock-LockCall env))
                (Emits-pure tt))
              (λ _.
                Emits-bind (consul_deregister-Release Never env)
                  (λ _. cleanup-Release Never env)))))
        (Emits-pure tt))

  pub raise_if_inconsistent-Quiet : Emits Quiet (raise_if_inconsistent env)
  unfolding raise_if_inconsistent
  raise_if_inconsistent-Quiet = Emits-bind (is_running-Quiet env) (λ q.
      Emits-bind (find_process-Quiet env) (λ p.
        Emits-bind mine-Quiet (λ l.
          Emits-if (is_consistent q p l) (Emits-pure tt) (Emits-raise vm_state_inconsistent))))
