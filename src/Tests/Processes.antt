-- ===== src/Tests/Processes.antt =====
-- Runs of class process.
use watched_agent.Base.{
  ℕ, ◌∷◌, [], List, ◌≡◌, refl, arith, some, none, Option, Str, codes, ◌==◌, false, if◌then◌else◌,
  any,
}
use watched_agent.Process.{Os, Process, get_ppid, have_inode, set_sockets}
use watched_agent.Process.Inodes.{links_to, Distinct, set_sockets_exact}
use watched_agent.Process.Parent.{IsWord, stat_text, get_ppid-stat, get_ppid-space}

-- Process 10 is a server with the child 11; the name of the child has a space.
abbrev lines : ℕ → Option Str
lines pid =
    if pid == 10
    then some (stat_text 10 (codes "nginx") b'S' 1 (codes "10 10"))
    else if pid == 11
    then some (stat_text 11 (codes "nginx worker") b'S' 10 (codes "10 10"))
    else none

abbrev descriptors : List (Str × Option Str)
descriptors =
    (codes "0", some (codes "/dev/null"))
    ∷ (codes "5", some (codes "socket:[77]"))
    ∷ (codes "6", some (codes "socket:[77]"))
    ∷ []

abbrev pub system : Os
system = record {
  alive = λ pid. pid == 10;
  stat_line = lines;
  exe = λ pid. if pid == 10 then some (codes "/usr/sbin/nginx") else none;
  fds = λ pid. if pid == 10 then some descriptors else none;
  file_exists = λ f. false;
  proc_entries = some (codes "10" ∷ codes "self" ∷ []);
  net_lines = λ t. [];
}

nginx-IsWord : IsWord (codes "nginx")
unfolding watched_agent.Text.is_space
nginx-IsWord = (refl, (refl, (refl, (refl, (refl, tt)))))

worker-IsWord : IsWord (codes "worker")
unfolding watched_agent.Text.is_space
worker-IsWord = (refl, (refl, (refl, (refl, (refl, (refl, tt))))))

state-word : watched_agent.Text.is_space b'S' ≡ false
unfolding watched_agent.Text.is_space
state-word = refl

pub parent-10 : get_ppid system 10 ≡ 1
parent-10 =
    get_ppid-stat system 10 1 b'S' (codes "nginx") (codes "10 10") refl nginx-IsWord state-word
      (omega arith)

get_ppid-space_example : get_ppid system 11 ≡ 0
get_ppid-space_example =
    get_ppid-space system 11 10 b'S' (codes "nginx") (codes "worker") (codes "10 10") refl
      nginx-IsWord worker-IsWord (omega arith)

abbrev pub server : Process
server = record {
  pid = 10;
  full_path = codes "/usr/sbin/nginx";
  base_name = codes "nginx";
  sockets = 5 ∷ [];
}

set_sockets_exact_example :
    ((id : ℕ) → have_inode (set_sockets system server).sockets id ≡ any (links_to id) descriptors)
    × Distinct (set_sockets system server).sockets
set_sockets_exact_example = set_sockets_exact system server descriptors refl
