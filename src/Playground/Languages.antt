-- ===== src/Playground/Languages.antt =====
-- `LANGUAGES` of playground/src/App.tsx: the languages that the playground offers.
use goboxd.Base.{
  String, Bool, true, false, List, [], ◌∷◌, Option, none, some, str_eq, if◌then◌else◌, has, ◌≡◌,
  refl, inl, inr, Bool-cases,
}

pub record Language : Type 0 where
  pub label : String
  pub default_code : String
  pub has_stdin : Bool
  pub monaco : String

-- The value of an object at a key.
abbrev pub lookup {ℓ} : {V : Type ℓ} → String → List (String × V) → Option V
lookup k [] = none
lookup k ((j, v) ∷ m) = if str_eq j k then some v else lookup k m

-- `Object.keys(m)`
abbrev pub ids {ℓ} : {V : Type ℓ} → List (String × V) → List String
ids [] = []
ids ((k, v) ∷ m) = k ∷ ids m

-- A key has a value.
pub lookup-ids {ℓ} :
    {V : Type ℓ} (k : String) (m : List (String × V))
    → has k (ids m) ≡ true
    → (v : V) × (lookup k m ≡ some v)
lookup-ids k [] h = cc
lookup-ids k ((j, v) ∷ m) h = elim (Bool-cases (str_eq j k)) [
  | inl e ↦ (v, rw e refl)
  | inr e ↦ let found = lookup-ids k m (rw e at h) in (found.0, rw e found.1)
]

unfoldable pub languages : List (String × Language)
languages =
    (
      "bash",
      record {
        label = "Bash";
        default_code = "echo \"hello from bash\"";
        has_stdin = false;
        monaco = "shell";
      },
    )
    ∷ (
      "c",
      record {
        label = "C";
        default_code =
            "#include <stdio.h>\nint main() {\n  printf(\"hello from c\\n\");\n  return 0;\n}";
        has_stdin = false;
        monaco = "c";
      },
    )
    ∷ (
      "cpp",
      record {
        label = "C++";
        default_code =
            "#include <iostream>\nint main() {\n  std::cout << \"hello from c++\" << std::endl;\n  return 0;\n}";
        has_stdin = false;
        monaco = "cpp";
      },
    )
    ∷ (
      "d",
      record {
        label = "D (GDC)";
        default_code = "import std.stdio;\nvoid main() {\n  writeln(\"hello from d\");\n}";
        has_stdin = false;
        monaco = "cpp";
      },
    )
    ∷ (
      "erl",
      record {
        label = "Erlang";
        default_code =
            "-module(solution).\n-export([start/0]).\nstart() ->\n  io:format(\"hello from erlang~n\").";
        has_stdin = false;
        monaco = "erlang";
      },
    )
    ∷ (
      "go",
      record {
        label = "Go";
        default_code =
            "package main\nimport \"fmt\"\nfunc main() {\n  fmt.Println(\"hello from go\")\n}";
        has_stdin = false;
        monaco = "go";
      },
    )
    ∷ (
      "haskell",
      record {
        label = "Haskell";
        default_code = "main = putStrLn \"hello from haskell\"";
        has_stdin = false;
        monaco = "haskell";
      },
    )
    ∷ (
      "java",
      record {
        label = "Java";
        default_code =
            "public class Main {\n  public static void main(String[] args) {\n    System.out.println(\"hello from java\");\n  }\n}";
        has_stdin = false;
        monaco = "java";
      },
    )
    ∷ (
      "js",
      record {
        label = "JavaScript (Node)";
        default_code = "console.log(\"hello from node\");";
        has_stdin = true;
        monaco = "javascript";
      },
    )
    ∷ (
      "lisp",
      record {
        label = "Lisp (SBCL)";
        default_code = "(format t \"hello from lisp~%\")";
        has_stdin = false;
        monaco = "lisp";
      },
    )
    ∷ (
      "lua",
      record {
        label = "Lua (LuaJIT)";
        default_code = "print(\"hello from lua\")";
        has_stdin = false;
        monaco = "lua";
      },
    )
    ∷ (
      "ocaml",
      record {
        label = "OCaml";
        default_code = "print_string \"hello from ocaml\\n\"";
        has_stdin = false;
        monaco = "ocaml";
      },
    )
    ∷ (
      "perl",
      record {
        label = "Perl";
        default_code = "print \"hello from perl\\n\"";
        has_stdin = false;
        monaco = "perl";
      },
    )
    ∷ (
      "py3",
      record {
        label = "Python 3";
        default_code = "print(\"hello from python 3\")";
        has_stdin = true;
        monaco = "python";
      },
    )
    ∷ (
      "r",
      record {
        label = "R";
        default_code = "cat(\"hello from r\\n\")";
        has_stdin = true;
        monaco = "r";
      },
    )
    ∷ (
      "rust",
      record {
        label = "Rust";
        default_code = "fn main() {\n  println!(\"hello from rust\");\n}";
        has_stdin = false;
        monaco = "rust";
      },
    )
    ∷ (
      "verilog",
      record {
        label = "Verilog";
        default_code =
            "module hello;\ninitial begin\n  $display(\"hello from verilog\");\n  $finish;\nend\nendmodule";
        has_stdin = false;
        monaco = "verilog";
      },
    )
    ∷ []
