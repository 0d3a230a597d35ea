-- ===== src/Logger.antt =====
-- Logger.h and Logger.cc. There is one Logger for the whole process, so its level is shared by all
-- threads; `lines` is what went to std::cout. A message is the text that snprintf makes of the
-- macro's arguments. `stamp` is the text of the present time (Timestamp.antt).
pub mod Labels
use head_write_muduo_epoll_c.Base.{
  ℕ, Bool, true, false, List, [], ◌∷◌, ◌++◌, take, ◌==◌, if◌then◌else◌,
}

-- LogLevel.
abbrev pub info : ℕ
info = 0

abbrev pub error : ℕ
error = 1

abbrev pub fatal : ℕ
fatal = 2

abbrev pub debug : ℕ
debug = 3

pub record Logger : Type 0 where
  pub log_level : ℕ
  pub lines : List (List ℕ)

unfoldable pub set_log_level : ℕ → Logger → Logger
set_log_level level l = record l { log_level = level }

-- The `switch`; another level prints nothing.
unfoldable pub label : ℕ → List ℕ
label level =
    if level == info
    then b'[' ∷ b'I' ∷ b'N' ∷ b'F' ∷ b'O' ∷ b']' ∷ []
    else (if level == error
        then b'[' ∷ b'E' ∷ b'R' ∷ b'R' ∷ b'O' ∷ b'R' ∷ b']' ∷ []
        else (if level == fatal
            then b'[' ∷ b'F' ∷ b'A' ∷ b'T' ∷ b'A' ∷ b'L' ∷ b']' ∷ []
            else (if level == debug
                then b'[' ∷ b'D' ∷ b'E' ∷ b'B' ∷ b'U' ∷ b'G' ∷ b']' ∷ []
                else [])))

unfoldable pub line : ℕ → List ℕ → List ℕ → List ℕ
line level stamp msg = label level ++ (stamp ++ (b' ' ∷ b':' ∷ b' ' ∷ msg))

unfoldable pub log : List ℕ → List ℕ → Logger → Logger
log stamp msg l = record l { lines = l.lines ++ line l.log_level stamp msg ∷ [] }

-- `char buf[1024]` with `snprintf(buf, 1024, ...)`.
unfoldable pub in_buf : List ℕ → List ℕ
in_buf msg = take 1023 msg

unfoldable pub log_info : List ℕ → List ℕ → Logger → Logger
log_info stamp msg l = log stamp (in_buf msg) (set_log_level info l)

unfoldable pub log_error : List ℕ → List ℕ → Logger → Logger
log_error stamp msg l = log stamp (in_buf msg) (set_log_level error l)

-- With whether the process ends, by `exit(-1)`.
unfoldable pub log_fatal : List ℕ → List ℕ → Logger → Logger × Bool
log_fatal stamp msg l = (log stamp (in_buf msg) (set_log_level fatal l), true)

-- Without MUDEBUG the macro is empty.
unfoldable pub log_debug : Bool → List ℕ → List ℕ → Logger → Logger
log_debug mudebug stamp msg l =
    if mudebug then log stamp (in_buf msg) (set_log_level debug l) else l
