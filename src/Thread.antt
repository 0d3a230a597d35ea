-- ===== src/Thread.antt =====
-- Thread.h and Thread.cc. `exited` stands for what ends the process here: std::terminate, which runs
-- where a std::thread that can be joined is destroyed or where `join` throws, and a null pointer.
-- `start` as the two threads see it is in Thread/Handshake.antt.
pub mod Life
pub mod Handshake
use head_write_muduo_epoll_c.Base.{
  ℕ, ◌+◌, Bool, true, false, not, ◌&&◌, List, [], ◌∷◌, ◌++◌, take, Outcome, ok, exited, ◌>>=◌,
  if◌then◌else◌,
}
use head_write_muduo_epoll_c.Kernel.{Decimal}

-- The std::thread behind `thread_`: not made, to be joined or detached, joined, so that it has ended,
-- or detached, so that it runs for itself.
pub data StdThread : Type 0 where
  absent joinable waited_for detached : StdThread

pub record Thread : Type 0 where
  pub started : Bool
  pub joined : Bool
  pub thread : StdThread
  pub tid : ℕ
  pub name : List ℕ

-- `setDefaultName`, with the number of threads made so far: `snprintf` keeps 31 characters.
unfoldable pub default_name : Decimal → List ℕ → ℕ → List ℕ
default_name dec [] num = take 31 (b'T' ∷ b'h' ∷ b'r' ∷ b'e' ∷ b'a' ∷ b'd' ∷ dec.print num)
default_name dec (c ∷ name) num = c ∷ name

-- The constructor, with `numCreated_` before and after.
unfoldable pub new_thread : Decimal → List ℕ → ℕ → Thread × ℕ
unfolding default_name
new_thread dec name num_created = (
  record {
    started = false;
    joined = false;
    thread = absent;
    tid = 0;
    name = default_name dec name (num_created + 1);
  },
  num_created + 1,
)

-- `thread_ = ...` destroys what was there.
unfoldable pub put_thread : StdThread → Outcome StdThread
put_thread absent = ok joinable
put_thread joinable = exited
put_thread waited_for = ok joinable
put_thread detached = ok joinable

-- `start` up to its return, where the new thread has this number.
unfoldable pub start : ℕ → Thread → Outcome Thread
start tid t = put_thread t.thread >>= λ h. ok (record t { started = true; thread = h; tid = tid })

-- `std::thread::join` and `std::thread::detach`; both throw where the thread is not joinable.
unfoldable pub std_join : StdThread → Outcome StdThread
std_join absent = exited
std_join joinable = ok waited_for
std_join waited_for = exited
std_join detached = exited

unfoldable pub std_detach : StdThread → Outcome StdThread
std_detach absent = exited
std_detach joinable = ok detached
std_detach waited_for = exited
std_detach detached = exited

unfoldable pub join : Thread → Outcome Thread
join t = std_join t.thread >>= λ h. ok (record t { joined = true; thread = h })

-- The end of the shared_ptr.
unfoldable pub drop_thread : StdThread → Outcome StdThread
drop_thread absent = ok absent
drop_thread joinable = exited
drop_thread waited_for = ok waited_for
drop_thread detached = ok detached

unfoldable pub destroy : Thread → Outcome StdThread
destroy t =
    (if t.started && not t.joined then std_detach t.thread else ok t.thread) >>= λ h. drop_thread h
