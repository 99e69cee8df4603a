-- ===== src/Behavior/Credential.antt =====
-- behavior_memory.py, `CREDENTIAL`: the paths whose open is remembered as a precursor. A path is
-- its bytes: `decode("utf-8", "replace")` keeps every ASCII byte and makes no `/` of others.
use e_bpf_based_kernel_ai_se.Prelude.{List, ℕ, Bool}
use e_bpf_based_kernel_ai_se.Behavior.Regex.{
  Regex, char_but, ◌then◌, ◌or◌, some_of, text, fullmatch,
}

-- `[^/]+`
abbrev pub segment : Regex
segment = some_of (char_but b'/')

unfoldable pub credential : Regex
unfolding text
credential =
    (text "/etc/" then (text "shadow" or text "gshadow"))
    or (text "/etc/ssh/ssh_host_" then segment then text "_key")
    or (text "/"
        then (text "root" or (text "home/" then segment))
        then text "/.ssh/id_"
        then (text "rsa" or text "dsa" or text "ecdsa" or text "ed25519"))

unfoldable pub is_credential : List ℕ → Bool
unfolding fullmatch credential
is_credential path = fullmatch credential path
