-- ===== src/Tests/Buffers.antt =====
-- The theorems on buffers, at a buffer of thirteen bytes that holds three.
use head_write_muduo_epoll_c.Base.{
  ℕ, ◌≤◌, ◌≡◌, refl, List, [], ◌∷◌, ◌++◌, length, none, some, arith,
}
use head_write_muduo_epoll_c.Buffer.{
  Buffer, append, retrive_as_string, readable_bytes, Readv, read_count, read_fd, iovcnt,
  writable_bytes,
}
use head_write_muduo_epoll_c.Buffer.Bounds.{IsValid, append-IsValid}
use head_write_muduo_epoll_c.Buffer.Contents.{contents, contents-append, retrive_as_string_splits}
use head_write_muduo_epoll_c.Buffer.Input.{Filled, read_fd_receives}

abbrev holding : Buffer
holding = record {
  buffer = 0 ∷ 0 ∷ 0 ∷ 0 ∷ 0 ∷ 0 ∷ 0 ∷ 0 ∷ 7 ∷ 8 ∷ 9 ∷ 0 ∷ 0 ∷ [];
  reader_index = 8;
  writer_index = 11;
}

holding-IsValid : IsValid holding
holding-IsValid = omega arith

abbrev more : List ℕ
more = 4 ∷ 5 ∷ 6 ∷ []

contents-append_example : contents (append holding more) ≡ 7 ∷ 8 ∷ 9 ∷ 4 ∷ 5 ∷ 6 ∷ []
contents-append_example = contents-append {b = holding} more holding-IsValid (omega arith)

append-IsValid_example : IsValid (append holding more)
append-IsValid_example = append-IsValid {b = holding} more holding-IsValid (omega arith)

readable_two : 2 ≤ readable_bytes holding
unfolding readable_bytes
readable_two = omega arith

retrive_as_string_splits_example :
    let (string, rest) = retrive_as_string holding 2 in
    (string ++ contents rest ≡ contents holding) × (length string ≡ 2)
retrive_as_string_splits_example =
    retrive_as_string_splits {b = holding} 2 holding-IsValid readable_two

-- Two of the three bytes fit in the buffer.
abbrev readv_more : ℕ → ℕ → Readv
readv_more base_length count = read_count 3 (4 ∷ 5 ∷ []) (6 ∷ [])

filled : Filled (writable_bytes holding) (iovcnt holding) 3 more (4 ∷ 5 ∷ []) (6 ∷ [])
unfolding writable_bytes iovcnt
filled = record {
  counted = refl;
  limited = omega arith;
  base_length = refl;
  base_filled = refl;
  extra_filled = refl;
}

read_fd_receives_example :
    let (result, saved, b') = read_fd readv_more holding in
    (result ≡ some 3) × (saved ≡ none) × (contents b' ≡ 7 ∷ 8 ∷ 9 ∷ 4 ∷ 5 ∷ 6 ∷ []) × IsValid b'
read_fd_receives_example =
    read_fd_receives readv_more {b = holding} holding-IsValid refl filled (omega arith)
