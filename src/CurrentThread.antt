-- ===== src/CurrentThread.antt =====
-- CurrentThread.h and CurrentThread.cc: the cache of a thread's number, which is 0 until it is filled.
-- What gettid answers is an argument.
use head_write_muduo_epoll_c.Base.{ℕ, ◌≡◌, ◌≢◌, arith, ◌==◌, if◌then◌else◌}

-- CurrentThread::cachedTid, as what it leaves in `t_cachedTid`.
unfoldable pub cached_tid : ℕ → ℕ → ℕ
cached_tid cached answer = if cached == 0 then answer else cached

-- CurrentThread::tid, with what it returns and what it leaves in `t_cachedTid`.
unfoldable pub tid : ℕ → ℕ → ℕ × ℕ
tid cached answer =
    let cached' = if cached == 0 then cached_tid cached answer else cached in (cached', cached')

-- The first call asks the kernel, and every later one gives the same number without asking.
tid_again : (answer other : ℕ) → answer ≢ 0 → tid (tid 0 answer).1 other ≡ (answer, answer)
unfolding tid cached_tid
tid_again answer other positive = ground (arith, positive)
