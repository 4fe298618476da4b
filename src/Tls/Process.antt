-- ===== src/Tls/Process.antt =====
-- src/tls/openssl_process.cpp: a child process and the handles that the object holds. What the
-- system answers is an argument of each operation: the handles of a new pipe or process, the exit
-- code of a process, the number of bytes that a write takes.
pub mod Handles
use network_proxy.Common.Handles.{remove}
use network_proxy.Transport.Send.{write_loop}
use network_proxy.Prelude.{
  ◌==◌, if◌then◌else◌, option_map, length, is_empty, take, Bytes, ℕ, suc, ◌%◌, ◌^◌, Bool, true,
  false, Option, none, some, List, [], ◌∷◌, ◌++◌,
}

-- The members of the class; `none` is `nullptr`.
pub record OpenSslProcess : Type 0 where
  pub process_handle : Option ℕ
  pub thread_handle : Option ℕ
  pub stdin_write_handle : Option ℕ
  pub stdout_read_handle : Option ℕ

abbrev pub new_process : OpenSslProcess
new_process = record {
  process_handle = none;
  thread_handle = none;
  stdin_write_handle = none;
  stdout_read_handle = none;
}

-- The handles that are open, and the processes that `TerminateProcess` was called for.
pub record System : Type 0 where
  pub opened : List ℕ
  pub terminated : List ℕ

abbrev pub close : ℕ → System → System
close handle s = record s { opened = remove handle s.opened }

-- A new handle.
abbrev pub open_handle : ℕ → System → System
open_handle handle s = record s { opened = handle ∷ s.opened }

-- The function of that name, on the handle's value.
abbrev pub close_handle : Option ℕ → System → System
close_handle none s = s
close_handle (some handle) s = close handle s

abbrev pub still_active : ℕ
still_active = 259

-- The answers of `CreatePipe`, twice, reading end first, and of `CreateProcessA`; `none` is a failure.
pub record Started : Type 0 where
  pub stdout_pipe : Option (ℕ × ℕ)
  pub stdin_pipe : Option (ℕ × ℕ)
  pub process : Option (ℕ × ℕ)

unfoldable pub close_stdin : OpenSslProcess → System → OpenSslProcess × System
close_stdin p s = (record p { stdin_write_handle = none }, close_handle p.stdin_write_handle s)

-- From `CreateProcessA` on, with the four ends of the two pipes.
unfoldable pub create :
    Option (ℕ × ℕ) → ℕ → ℕ → ℕ → ℕ → OpenSslProcess → System → OpenSslProcess × System × Bool
create none child_stdout_read child_stdout_write child_stdin_read child_stdin_write p s =
    let s' = close child_stdout_write (close child_stdin_read s) in
    (p, close child_stdin_write (close child_stdout_read s'), false)
create (some (process_handle, thread_handle)) child_stdout_read child_stdout_write child_stdin_read
      child_stdin_write p s =
    (
      record {
        process_handle = some process_handle;
        thread_handle = some thread_handle;
        stdin_write_handle = some child_stdin_write;
        stdout_read_handle = some child_stdout_read;
      },
      close child_stdout_write
          (close child_stdin_read (open_handle thread_handle (open_handle process_handle s))),
      true,
    )

-- `GetExitCodeProcess` is `exit_code`; where it fails its answer is `none`.
module _ (exit_code : ℕ → Option ℕ) where
  unfoldable pub is_running : OpenSslProcess → Bool
  is_running p = elim p.process_handle [
    | none ↦ false
    | some handle ↦ elim (exit_code handle) [ none ↦ false | some code ↦ code == still_active ]
  ]

  -- The block that ends a process that runs still.
  unfoldable pub terminate : OpenSslProcess → System → System
  terminate p s = elim p.process_handle [
    | none ↦ s
    | some handle ↦ elim (exit_code handle) [
      | none ↦ s
      | some code ↦
          if code == still_active then record s { terminated = s.terminated ++ handle ∷ [] } else s
    ]
  ]

  unfoldable pub stop : OpenSslProcess → System → OpenSslProcess × System
  unfolding close_stdin terminate
  stop p s =
      let (p', s') = close_stdin p s in
      (
        new_process,
        close_handle p'.process_handle
            (close_handle p'.thread_handle (terminate p' (close_handle p'.stdout_read_handle s'))),
      )

  -- The object, the system and the result.
  unfoldable pub start : Started → OpenSslProcess → System → OpenSslProcess × System × Bool
  unfolding stop create
  start answers p s =
      let (p', s') = stop p s in
      elim answers.stdout_pipe [
        | none ↦ (p', s', false)
        | some (stdout_read, stdout_write) ↦
            let s₁ = open_handle stdout_write (open_handle stdout_read s') in
            elim answers.stdin_pipe [
              | none ↦ (p', close stdout_write (close stdout_read s₁), false)
              | some (stdin_read, stdin_write) ↦
                  create answers.process stdout_read stdout_write stdin_read stdin_write p'
                    (open_handle stdin_write (open_handle stdin_read s₁))
            ]
      ]

-- `WriteFile` asks for a `DWORD` of bytes. The bytes that were written, and the result.
unfoldable pub write_stdin : (ℕ → ℕ → Option ℕ) → OpenSslProcess → Bytes → Option (Bytes × Bool)
unfolding write_loop
write_stdin write_file p payload = elim p.stdin_write_handle [
  | none ↦ some ([], true)
  | some handle ↦
      let n = length payload in
      if is_empty payload
      then some ([], true)
      else option_map (λ r. (take r.0 payload, r.1))
          (write_loop (λ left. left % 2 ^ 32) write_file n (suc n) 0)
]

-- The chunk, where the result is `true`. `ReadFile` is an argument: `none` is an error.
unfoldable pub read_stdout : Option Bytes → OpenSslProcess → Option Bytes
read_stdout read_file p = elim p.stdout_read_handle [
  | none ↦ none
  | some handle ↦ elim read_file [
    | none ↦ none
    | some buffer ↦ if is_empty buffer then none else some buffer
  ]
]
