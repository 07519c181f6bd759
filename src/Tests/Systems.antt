-- ===== src/Tests/Systems.antt =====
-- Systems for clients and for files.
use socketxx.Common.{
  ℕ, ◌+◌, ◌≤◌, refl, true, false, none, some, List, length, ltb, if◌then◌else◌, arith,
}
use socketxx.Common.Int.{ℤ}
use socketxx.BaseIo.{Os}
use socketxx.Client.{ClientOs}
use socketxx.Client.Flags.{KeepsFlags}
use socketxx.SimpleSocket.File.ShortWrite.{GrowsFile}

-- The state is the descriptor's flags; connections take a while, and succeed.
abbrev pub client_os : ClientOs
client_os = record {
  World = ℕ;
  errno = λ w. 115;
  set_errno = λ n w. w;
  connect = λ fd w. (false, w);
  select_write = λ fd tm w. ((some 1, tm), w);
  get_so_error = λ fd w. (some 0, w);
  get_flags = λ fd w. (some w, w);
  set_flags = λ fd n w. (true, n);
}

unfoldable pub client_os_KeepsFlags : (fd : ℤ) → KeepsFlags client_os fd
client_os_KeepsFlags fd = record {
  flags = λ w. w;
  get = λ w. refl;
  set = λ n w. (n, refl, refl);
  connect_keeps = λ w. refl;
  select_keeps = λ tm w. refl;
  so_error_keeps = λ w. refl;
  set_errno_keeps = λ n w. refl;
}

-- A file whose writes take two bytes at most; the state is its size.
abbrev pub slow_count : List ℕ → ℕ
slow_count bs = if ltb 2 (length bs) then 2 else length bs

abbrev pub slow_file : Os
slow_file = record {
  World = ℕ;
  errno = λ s. 0;
  set_errno = λ e s. s;
  read = λ fd n s. (none, s);
  write = λ fd bs s. (some (slow_count bs), s + slow_count bs);
  send = λ fd bs flags s. (none, s);
  recv = λ fd n flags s. (none, s);
  select_read = λ fd tm s. ((none, tm), s);
  set_rcvtimeo = λ fd tm s. (none, s);
  get_rcvtimeo = λ fd s. (none, s);
  fstat_mode = λ fd s. (none, s);
}

slow_count_le : (bs : List ℕ) → slow_count bs ≤ length bs
slow_count_le bs = ground arith

unfoldable pub slow_file_GrowsFile : (fd : ℤ) → GrowsFile slow_file fd
unfolding slow_count_le
slow_file_GrowsFile fd = record { size = λ s. s; write_grows = λ bs s. (slow_count_le bs, refl) }
