-- ===== src/Executor/Sandbox.antt =====
-- `_sandbox_command`: the wrapping of a command in the host's sandbox, which fails closed.
use Prim.Native.String.{◌++◌ as ◌<>◌}
use adaptive_harness.Prelude.{
  ℕ, zero, suc, String, Bool, true, false, not, ◌||◌, List, [], ◌∷◌, ◌++◌, Option, none, some, ◌=ˢ◌,
  length, if◌then◌else◌, Result, ok, err, execution_rejected, guard, ◌>>=◌, ◌>>◌,
}
use adaptive_harness.Paths.{PosixPath, same_path, is_relative_to, join_path, show_path}
use adaptive_harness.Envelope.{is_nil}
use adaptive_harness.Gateway.{NetworkAccess, AuthorizedCommand}
use adaptive_harness.Executor.Defs.{Platform, Host}
use adaptive_harness.Executor.Output.{replace}

abbrev drop_last : List String → List String
drop_last [] = []
drop_last (x ∷ []) = []
drop_last (x ∷ y ∷ xs) = x ∷ drop_last (y ∷ xs)

-- `path.parent`: a root, and the empty path, are their own parents
abbrev parent : PosixPath → PosixPath
parent p = record { root = p.root; parts = drop_last p.parts }

-- `_sandbox_escape`
unfoldable pub sandbox_escape : String → String
unfolding replace
sandbox_escape s = replace "\"" "\\\"" (replace "\\" "\\\\" s)

abbrev is_outbound : NetworkAccess → Bool
is_outbound NetworkAccess.outbound = true
is_outbound NetworkAccess.none = false

-- `command.remove(value)`: the first occurrence
abbrev remove_first : String → List String → List String
remove_first v [] = []
remove_first v (x ∷ xs) = if x =ˢ v then xs else x ∷ remove_first v xs

abbrev join_texts : List String → String
join_texts [] = ""
join_texts (x ∷ xs) = x <> join_texts xs

module _ (host : Host) where
  abbrev has_git : PosixPath → Bool
  has_git p = host.path_exists (join_path p ".git")

  -- The loop up to the directory that holds `.git`, or to the root. A path has as many parents as
  -- parts, so that many rounds reach the root.
  unfoldable pub climb : ℕ → PosixPath → PosixPath
  climb zero p = p
  climb (suc fuel) p =
      let higher = climb fuel (parent p) in if is_nil p.parts || has_git p then p else higher

  -- `worktree`
  unfoldable pub sandbox_worktree : PosixPath → PosixPath
  unfolding climb
  sandbox_worktree cwd = let top = climb (length cwd.parts) cwd in if has_git top then top else cwd

  -- The resolved write path, if it lies in the worktree, exists, and is no Git metadata.
  unfoldable pub sandbox_write_path : PosixPath → String → Result PosixPath
  sandbox_write_path worktree value = do
    let candidate = host.resolve (join_path worktree value)
    let git_metadata = join_path (host.resolve worktree) ".git"
    guard (is_relative_to candidate (host.resolve worktree)) execution_rejected
    guard (host.path_exists candidate) execution_rejected
    guard (not (same_path candidate git_metadata || is_relative_to candidate git_metadata))
        execution_rejected
    ok candidate

  unfoldable pub sandbox_write_paths : PosixPath → List String → Result (List PosixPath)
  unfolding sandbox_write_path
  sandbox_write_paths worktree [] = ok []
  sandbox_write_paths worktree (value ∷ values) = do
    candidate ← sandbox_write_path worktree value
    candidates ← sandbox_write_paths worktree values
    ok (candidate ∷ candidates)

  abbrev subpath_rule : String → PosixPath → String
  subpath_rule rule path = rule <> (sandbox_escape (show_path path) <> "\"))")

  abbrev subpath_rules : List PosixPath → List String
  subpath_rules [] = []
  subpath_rules (p ∷ ps) = subpath_rule "(allow file-write* (subpath \"" p ∷ subpath_rules ps

  -- The sandbox profile for macOS.
  unfoldable pub darwin_rules : AuthorizedCommand → PosixPath → List PosixPath → List String
  unfolding sandbox_escape
  darwin_rules a git_metadata write_paths =
      ("(version 1)"
        ∷ "(deny default)"
        ∷ "(allow process*)"
        ∷ "(allow file-read*)"
        ∷ "(allow sysctl-read)"
        ∷ "(allow file-write-data (literal \"/dev/null\"))"
        ∷ subpath_rule "(allow file-write* (subpath \"" host.temporary_directory
        ∷ subpath_rules write_paths)
      ++ ((if host.path_exists git_metadata
            then subpath_rule "(deny file-write* (literal \"" git_metadata
              ∷ subpath_rule "(deny file-write* (subpath \"" git_metadata
              ∷ []
            else [])
          ++ (if is_outbound a.network then "(allow network-outbound)" else "(deny network*)") ∷ [])

  abbrev binds : List PosixPath → List String
  binds [] = []
  binds (p ∷ ps) = "--bind" ∷ show_path p ∷ show_path p ∷ binds ps

  -- The options of Bubblewrap up to the write paths.
  unfoldable pub linux_base : String → AuthorizedCommand → PosixPath → List String
  linux_base executable a worktree =
      let base =
        executable
        ∷ "--unshare-all"
        ∷ "--die-with-parent"
        ∷ "--new-session"
        ∷ "--ro-bind"
        ∷ "/"
        ∷ "/"
        ∷ "--proc"
        ∷ "/proc"
        ∷ "--dev"
        ∷ "/dev"
        ∷ "--tmpfs"
        ∷ "/tmp"
        ∷ "--bind"
        ∷ show_path host.temporary_directory
        ∷ show_path host.temporary_directory
        ∷ "--ro-bind"
        ∷ show_path (host.resolve worktree)
        ∷ show_path (host.resolve worktree)
        ∷ [] in
      if is_outbound a.network
      then remove_first "--unshare-all" base
        ++ ("--unshare-user" ∷ "--unshare-pid" ∷ "--unshare-uts" ∷ [])
      else base

  unfoldable pub linux_command :
      String → AuthorizedCommand → PosixPath → PosixPath → List PosixPath → List String
  unfolding linux_base
  linux_command executable a worktree git_metadata write_paths =
      linux_base executable a worktree
      ++ (binds write_paths
          ++ ((if host.path_exists git_metadata
                then "--ro-bind" ∷ show_path git_metadata ∷ show_path git_metadata ∷ []
                else [])
              ++ ("--chdir" ∷ show_path a.cwd ∷ "--" ∷ a.argv)))

  abbrev or_rejected : Option String → Result String
  or_rejected none = err execution_rejected
  or_rejected (some s) = ok s

  unfoldable pub sandbox_command : AuthorizedCommand → Result (List String)
  sandbox_command a = do
    guard (not a.listener) execution_rejected
    let worktree = sandbox_worktree a.cwd
    let git_metadata = join_path (host.resolve worktree) ".git"
    write_paths ← sandbox_write_paths worktree a.write_paths
    elim host.platform [
      | Platform.darwin ↦ do
        executable ← or_rejected (host.which "sandbox-exec")
        ok (executable ∷ "-p" ∷ join_texts (darwin_rules a git_metadata write_paths) ∷ a.argv)
      | Platform.linux ↦ do
        executable ← or_rejected (host.which "bwrap")
        ok (linux_command executable a worktree git_metadata write_paths)
      | Platform.other ↦ err execution_rejected
    ]
