-- ===== src/Virtio/Events/Poll.antt =====
-- `virtio_ioeventfd_poll_thread` (virtio.c): the notifications of the guest that come by ioeventfd.
use mvvmm.Base.{
  ℕ, ◌+◌, Bool, false, Option, none, some, List, [], ◌∷◌, ◌==◌, ◌||◌, if◌then◌else◌, Outcome, done,
  ◌>>=◌,
}
use mvvmm.Virtio.Device.{Machine}
use mvvmm.Virtio.Queue.{Recv, queue_notify}
use mvvmm.Virtio.Events.{Fds}

-- The counters of the eventfds, by descriptor.
abbrev pub Counters : Type 0
Counters = ℕ → ℕ

-- A notification of the guest: KVM adds 1 to the counter.
unfoldable pub kick : ℕ → Counters → Counters
kick fd c other = if other == fd then c other + 1 else c other

unfoldable pub kick_all : List ℕ → Counters → Counters
unfolding kick
kick_all [] c = c
kick_all (fd ∷ fds) c = kick_all fds (kick fd c)

-- A `read` of an eventfd clears its counter.
unfoldable pub read_counter : ℕ → Counters → Counters
read_counter fd c other = if other == fd then 0 else c other

-- EINTR, another error, or an answer of `poll`.
pub data Polled : Type 0 where
  interrupted poll_error answered : Polled

-- A round: `ioeventfd_enabled` as it is read then, the descriptors that the guest notifies before
-- `poll` answers, how `poll` ends, and those that it notifies behind that, before the reads.
pub record PollRound : Type 0 where
  pub enabled : Bool
  pub kicks : List ℕ
  pub polled : Polled
  pub late : List ℕ

unfoldable pub fd_list : Option ℕ → List ℕ → List ℕ
fd_list none fds = fds
fd_list (some fd) fds = fd ∷ fds

-- The descriptors of `pfds`.
unfoldable pub pfds : Fds → List ℕ
unfolding fd_list
pfds s = fd_list s.ioeventfd0 (fd_list s.ioeventfd1 [])

unfoldable pub is_fd : Option ℕ → ℕ → Bool
is_fd none fd = false
is_fd (some other) fd = other == fd

-- The search for the queue; `none` is MAX_QUEUE.
unfoldable pub queue_of : Fds → ℕ → Option ℕ
unfolding is_fd
queue_of s fd =
    if is_fd s.ioeventfd0 fd then some 0 else if is_fd s.ioeventfd1 fd then some 1 else none

-- Whether the answer of `poll` is not 0.
unfoldable pub any_set : List Bool → Bool
any_set [] = false
any_set (r ∷ revents) = r || any_set revents

-- `poll` gives for each descriptor whether POLLIN is set.
module _ {B : Type 0} (poll : Counters → List ℕ → List Bool) (fuel chain_fuel : ℕ)
    (recv : Recv B) where
  -- The requests of one queue, under the lock.
  abbrev pub notify : ℕ → Machine B → Outcome (Machine B)
  notify qidx m = queue_notify chain_fuel recv qidx fuel m

  unfoldable pub serve_queue : Option ℕ → Machine B → Outcome (Machine B)
  serve_queue none m = done m
  serve_queue (some qidx) m = notify qidx m

  -- A descriptor with POLLIN.
  unfoldable pub serve_fd : Fds → ℕ → Counters → Machine B → Outcome (Counters × Machine B)
  unfolding read_counter serve_queue
  serve_fd s fd c m =
      let c' = read_counter fd c in do m' ← serve_queue (queue_of s fd) m; done (c', m')

  -- The loop over `pfds`.
  unfoldable pub serve_fds :
      Fds → List ℕ → List Bool → Counters → Machine B → Outcome (Counters × Machine B)
  unfolding serve_fd
  serve_fds s [] revents c m = done (c, m)
  serve_fds s (fd ∷ fds) [] c m = done (c, m)
  serve_fds s (fd ∷ fds) (r ∷ revents) c m = do
    (c', m') ← if r then serve_fd s fd c m else done (c, m)
    serve_fds s fds revents c' m'

  unfoldable pub poll_loop :
      Fds → List ℕ → List PollRound → Counters → Machine B → Outcome (Counters × Machine B)
  unfolding serve_fds kick_all any_set
  poll_loop s fds [] c m = done (c, m)
  poll_loop s fds (r ∷ rounds) c m =
      let polled = kick_all r.kicks c in
      let late = kick_all r.late polled in
      let again = poll_loop s fds rounds late m in
      if r.enabled
      then elim r.polled [
        | interrupted ↦ again
        | poll_error ↦ done (late, m)
        | answered ↦
            if any_set (poll polled fds)
            then (do
              (c', m') ← serve_fds s fds (poll polled fds) late m
              poll_loop s fds rounds c' m')
            else again
      ]
      else done (c, m)

  -- The counters and the machine when the thread ends.
  unfoldable pub virtio_ioeventfd_poll_thread :
      Fds → List PollRound → Counters → Machine B → Outcome (Counters × Machine B)
  unfolding poll_loop pfds
  virtio_ioeventfd_poll_thread s rounds c m = poll_loop s (pfds s) rounds c m
