-- ===== src/Playground/Presets.antt =====
-- `PRESETS` of playground/src/App.tsx: the sample programs of each language.
use goboxd.Base.{String, List, [], ◌∷◌, Option, none, some}

-- An optional property is `none` where the object has no such key.
pub record Preset : Type 0 where
  pub label : String
  pub source : String
  pub stdin : Option String
  pub expected : Option String

preset : String → String → Option String → Option String → Preset
preset label source stdin expected = record {
  label = label;
  source = source;
  stdin = stdin;
  expected = expected;
}

py3_presets : List Preset
unfolding preset
py3_presets =
    preset "hello world" "print(\"hello world\")" (some "") (some "hello world\n")
    ∷ preset "fibonacci"
        "def fib(n):\n  a, b = 0, 1\n  for _ in range(n):\n    print(a)\n    a, b = b, a+b\n\nfib(10)"
        (some "") (some "")
    ∷ preset "[bad] infinite loop" "import time\nwhile True:\n  time.sleep(1)" none none
    ∷ preset "[bad] memory bomb" "l = []\nwhile True:\n  l.append(\"a\" * 1024 * 1024)" none none
    ∷ preset "[bad] recursion depth" "def f():\n  f()\nf()" none none
    ∷ preset "[lc easy] two sum"
        "def two_sum(nums, target):\n  seen = {}\n  for i, v in enumerate(nums):\n    need = target - v\n    if need in seen:\n      return [seen[need], i]\n    seen[v] = i\n  return []\n\nprint(two_sum([2,7,11,15], 9))"
        none none
    ∷ preset "[lc easy] fizzbuzz"
        "def fizzbuzz(n):\n  for i in range(1, n+1):\n    if i % 15 == 0: print(\"FizzBuzz\")\n    elif i % 3 == 0: print(\"Fizz\")\n    elif i % 5 == 0: print(\"Buzz\")\n    else: print(i)\n\nfizzbuzz(15)"
        none none
    ∷ preset "[lc medium] reverse linked list"
        "class ListNode:\n  def __init__(self, val=0, next=None):\n    self.val = val\n    self.next = next\n\ndef reverseList(head):\n  prev = None\n  curr = head\n  while curr:\n    nxt = curr.next\n    curr.next = prev\n    prev = curr\n    curr = nxt\n  return prev\n\n# build 1->2->3->None\nhead = ListNode(1, ListNode(2, ListNode(3)))\nresult = reverseList(head)\nwhile result:\n  print(result.val, end=\" \")\n  result = result.next\nprint()"
        none none
    ∷ preset "[lc medium] valid parentheses"
        "def isValid(s):\n  pairs = {\")\":\"(\", \"]\":\"[\", \"}\":\"{\"}\n  stack = []\n  for c in s:\n    if c in pairs:\n      if not stack or stack.pop() != pairs[c]:\n        return False\n    else:\n      stack.append(c)\n  return len(stack) == 0\n\nprint(isValid(\"()[]{}\"))\nprint(isValid(\"([)]\"))\nprint(isValid(\"{[]}\"))"
        none none
    ∷ []

c_presets : List Preset
unfolding preset
c_presets =
    preset "hello world"
      "#include <stdio.h>\nint main() {\n  printf(\"hello world\\n\");\n  return 0;\n}" (some "")
      (some "hello world\n")
    ∷ preset "fibonacci"
        "#include <stdio.h>\nint fib(int n) {\n  if (n <= 1) return n;\n  return fib(n-1) + fib(n-2);\n}\nint main() {\n  for (int i = 0; i < 10; i++)\n    printf(\"%d\\n\", fib(i));\n  return 0;\n}"
        none none
    ∷ preset "[bad] segfault"
        "#include <stdio.h>\nint main() {\n  int *p = NULL;\n  *p = 42;\n  printf(\"this wont print\\n\");\n  return 0;\n}"
        none none
    ∷ preset "[bad] infinite loop" "#include <stdio.h>\nint main() {\n  for(;;);\n  return 0;\n}"
        none none
    ∷ preset "[bad] stack overflow" "void f() { f(); }\nint main() { f(); return 0; }" none none
    ∷ preset "[bad] buffer overflow"
        "#include <stdio.h>\n#include <string.h>\nint main() {\n  char buf[4];\n  strcpy(buf, \"this is way too long\");\n  printf(\"%s\\n\", buf);\n  return 0;\n}"
        none none
    ∷ []

cpp_presets : List Preset
unfolding preset
cpp_presets =
    preset "hello world"
      "#include <iostream>\nint main() {\n  std::cout << \"hello world\" << std::endl;\n  return 0;\n}"
      (some "") (some "hello world\n")
    ∷ preset "[bad] segfault"
        "#include <iostream>\nint main() {\n  int* p = nullptr;\n  *p = 42;\n  std::cout << \"crash\" << std::endl;\n  return 0;\n}"
        none none
    ∷ preset "[bad] infinite loop"
        "#include <iostream>\nint main() {\n  while(true) {}\n  return 0;\n}" none none
    ∷ preset "[bad] abort" "#include <cstdlib>\nint main() {\n  abort();\n  return 0;\n}" none none
    ∷ []

java_presets : List Preset
unfolding preset
java_presets =
    preset "hello world"
      "public class Main {\n  public static void main(String[] args) {\n    System.out.println(\"hello world\");\n  }\n}"
      (some "") (some "hello world\n")
    ∷ preset "MemoryHog 10MB"
        "public class Main {\n    public static void main(String[] args) throws InterruptedException {\n        final int megabytes = 10;\n        final int blockSize = 1 << 20;\n        final byte[][] blocks = new byte[megabytes][];\n\n        long checksum = 0;\n\n        for (int i = 0; i < megabytes; i++) {\n            byte[] block = new byte[blockSize];\n            for (int j = 0; j < blockSize; j += 4096) {\n                block[j] = (byte) (i * 31 + j);\n                checksum += block[j];\n            }\n            blocks[i] = block;\n        }\n\n        for (byte[] block : blocks) {\n            for (int j = 0; j < block.length; j += 512) {\n                checksum += block[j];\n            }\n        }\n\n        Thread.sleep(100);\n        System.out.println(\"MemoryHog OK mb=\" + megabytes + \" checksum=\" + checksum);\n    }\n}"
        none none
    ∷ preset "[bad] null pointer"
        "public class Main {\n  public static void main(String[] args) {\n    Object o = null;\n    o.toString();\n  }\n}"
        none none
    ∷ preset "[bad] infinite loop"
        "public class Main {\n  public static void main(String[] args) {\n    while(true) {}\n  }\n}"
        none none
    ∷ preset "[bad] stack overflow"
        "public class Main {\n  static void f() { f(); }\n  public static void main(String[] args) {\n    f();\n  }\n}"
        none none
    ∷ []

bash_presets : List Preset
unfolding preset
bash_presets =
    preset "hello world" "echo \"hello world\"" (some "") (some "hello world\n")
    ∷ preset "count" "for i in 1 2 3; do\necho \"line $i\"\ndone" (some "")
        (some "line 1\nline 2\nline 3\n")
    ∷ preset "[bad] fork bomb" "f() { f|f & }; f" none none
    ∷ []

js_presets : List Preset
unfolding preset
js_presets =
    preset "hello world" "console.log(\"hello world\");" (some "") (some "hello world\n")
    ∷ preset "fibonacci"
        "function fib(n) {\n  if (n <= 1) return n;\n  return fib(n-1) + fib(n-2);\n}\nfor (let i = 0; i < 10; i++) {\n  console.log(fib(i));\n}"
        none none
    ∷ preset "[bad] infinite loop" "while(true) {}" none none
    ∷ preset "[bad] memory bomb"
        "const arr = [];\nwhile (true) {\n  arr.push(\"x\".repeat(1024*1024));\n}" none none
    ∷ []

verilog_presets : List Preset
unfolding preset
verilog_presets =
    preset "hello world"
      "module hello;\ninitial begin\n  $display(\"hello world\");\n  $finish;\nend\nendmodule"
      (some "") (some "hello world\n")
    ∷ preset "counter"
        "module counter;\nreg [3:0] count;\ninitial begin\n  for (count = 0; count < 10; count = count + 1)\n    $display(\"count = %d\", count);\n  $finish;\nend\nendmodule"
        none none
    ∷ []

rust_presets : List Preset
unfolding preset
rust_presets =
    preset "hello world" "fn main() {\n  println!(\"hello world\");\n}" (some "")
      (some "hello world\n")
    ∷ preset "fibonacci"
        "fn fib(n: u64) -> u64 {\n  match n {\n    0 | 1 => n,\n    _ => fib(n-1) + fib(n-2),\n  }\n}\nfn main() {\n  for i in 0..10 {\n    println!(\"{}\", fib(i));\n  }\n}"
        none none
    ∷ preset "fizzbuzz"
        "fn main() {\n  for i in 1..=15 {\n    if i % 15 == 0 { println!(\"FizzBuzz\"); }\n    else if i % 3 == 0 { println!(\"Fizz\"); }\n    else if i % 5 == 0 { println!(\"Buzz\"); }\n    else { println!(\"{}\", i); }\n  }\n}"
        none none
    ∷ preset "[bad] panic" "fn main() {\n  panic!(\"crash\");\n}" none none
    ∷ preset "[bad] infinite loop" "fn main() {\n  loop {}" none none
    ∷ preset "[bad] stack overflow" "fn f() { f() }\nfn main() { f() }" none none
    ∷ []

go_presets : List Preset
unfolding preset
go_presets =
    preset "hello world"
      "package main\nimport \"fmt\"\nfunc main() {\n  fmt.Println(\"hello world\")\n}" (some "")
      (some "hello world\n")
    ∷ preset "fibonacci"
        "package main\nimport \"fmt\"\nfunc fib(n int) int {\n  if n <= 1 { return n }\n  return fib(n-1) + fib(n-2)\n}\nfunc main() {\n  for i := 0; i < 10; i++ {\n    fmt.Println(fib(i))\n  }\n}"
        none none
    ∷ preset "fizzbuzz"
        "package main\nimport \"fmt\"\nfunc main() {\n  for i := 1; i <= 15; i++ {\n    if i%15 == 0 { fmt.Println(\"FizzBuzz\") }\n    else if i%3 == 0 { fmt.Println(\"Fizz\") }\n    else if i%5 == 0 { fmt.Println(\"Buzz\") }\n    else { fmt.Println(i) }\n  }\n}"
        none none
    ∷ preset "[bad] nil deref" "package main\nfunc main() {\n  var p *int\n  *p = 42\n}" none none
    ∷ preset "[bad] infinite loop" "package main\nfunc main() {\n  for {}" none none
    ∷ []

haskell_presets : List Preset
unfolding preset
haskell_presets =
    preset "hello world" "main = putStrLn \"hello world\"" (some "") (some "Hello from Haskell!\n")
    ∷ preset "fibonacci"
        "fib 0 = 0\nfib 1 = 1\nfib n = fib (n-1) + fib (n-2)\nmain = mapM_ (print . fib) [0..9]"
        none none
    ∷ preset "[bad] infinite loop" "main = forever $ putStrLn \"looping\"" none none
    ∷ []

ocaml_presets : List Preset
unfolding preset
ocaml_presets =
    preset "hello world" "print_string \"hello world\\n\"" (some "") (some "hello world\n")
    ∷ preset "fibonacci"
        "let rec fib n =\n  if n <= 1 then n\n  else fib (n-1) + fib (n-2)\nlet () =\n  for i = 0 to 9 do\n    print_int (fib i);\n    print_newline ()\n  done"
        none none
    ∷ preset "[bad] division by zero" "let () =\n  let x = 1 / 0 in\n  print_int x" none none
    ∷ []

r_presets : List Preset
unfolding preset
r_presets =
    preset "hello world" "cat(\"hello world\\n\")" (some "") (some "hello world\n")
    ∷ preset "fibonacci"
        "fib <- function(n) {\n  if (n <= 1) return(n)\n  fib(n-1) + fib(n-2)\n}\nfor (i in 0:9) {\n  cat(fib(i), \"\\n\")\n}"
        none none
    ∷ preset "mean"
        "numbers <- c(1, 2, 3, 4, 5)\ncat(\"mean:\", mean(numbers), \"\\n\")\ncat(\"sum:\", sum(numbers), \"\\n\")"
        none none
    ∷ preset "[bad] crash" "this will crash" none none
    ∷ []

d_presets : List Preset
unfolding preset
d_presets =
    preset "hello world" "import std.stdio;\nvoid main() {\n  writeln(\"hello world\");\n}"
      (some "") (some "hello world\n")
    ∷ preset "fibonacci"
        "import std.stdio;\nint fib(int n) {\n  if (n <= 1) return n;\n  return fib(n-1) + fib(n-2);\n}\nvoid main() {\n  foreach (i; 0..10)\n    writeln(fib(i));\n}"
        none none
    ∷ preset "[bad] null deref" "import std.stdio;\nvoid main() {\n  int* p = null;\n  *p = 42;\n}"
        none none
    ∷ []

lua_presets : List Preset
unfolding preset
lua_presets =
    preset "hello world" "print(\"hello world\")" (some "") (some "hello world\n")
    ∷ preset "fibonacci"
        "function fib(n)\n  if n <= 1 then return n end\n  return fib(n-1) + fib(n-2)\nend\nfor i = 0, 9 do\n  print(fib(i))\nend"
        none none
    ∷ preset "[bad] infinite loop" "while true do end" none none
    ∷ preset "[bad] crash" "this will crash" none none
    ∷ []

perl_presets : List Preset
unfolding preset
perl_presets =
    preset "hello world" "print \"hello world\\n\"" (some "") (some "hello world\n")
    ∷ preset "fibonacci"
        "sub fib {\n  my $n = shift;\n  return $n if $n <= 1;\n  fib($n-1) + fib($n-2);\n}\nforeach my $i (0..9) {\n  print fib($i) . \"\\n\";\n}"
        none none
    ∷ preset "[bad] crash" "this will crash" none none
    ∷ []

erl_presets : List Preset
unfolding preset
erl_presets =
    preset "hello world"
      "-module(solution).\n-export([start/0]).\nstart() ->\n  io:format(\"hello world~n\")."
      (some "") (some "hello world\n")
    ∷ preset "fibonacci"
        "-module(solution).\n-export([start/0]).\n\nfib(0) -> 0;\nfib(1) -> 1;\nfib(N) -> fib(N-1) + fib(N-2).\n\nstart() ->\n  lists:foreach(\n    fun(I) -> io:format(\"~p~n\", [fib(I)]) end,\n    lists:seq(0, 9)\n  )."
        none none
    ∷ preset "[bad] crash" "-module(solution).\n-export([start/0]).\nstart() ->\n  1 / 0." none none
    ∷ []

lisp_presets : List Preset
unfolding preset
lisp_presets =
    preset "hello world" "(format t \"hello world~%\")" (some "") (some "hello world\n")
    ∷ preset "fibonacci"
        "(defun fib (n)\n  (if (<= n 1)\n      n\n      (+ (fib (- n 1)) (fib (- n 2)))))\n\n(dotimes (i 10)\n  (format t \"~a~%\" (fib i)))"
        none none
    ∷ preset "[bad] crash" "(error \"this is a crash\")" none none
    ∷ []

unfoldable pub presets : List (String × List Preset)
unfolding py3_presets c_presets cpp_presets java_presets bash_presets js_presets verilog_presets
    rust_presets go_presets haskell_presets ocaml_presets r_presets d_presets lua_presets
    perl_presets erl_presets lisp_presets
presets =
    ("py3", py3_presets)
    ∷ ("c", c_presets)
    ∷ ("cpp", cpp_presets)
    ∷ ("java", java_presets)
    ∷ ("bash", bash_presets)
    ∷ ("js", js_presets)
    ∷ ("verilog", verilog_presets)
    ∷ ("rust", rust_presets)
    ∷ ("go", go_presets)
    ∷ ("haskell", haskell_presets)
    ∷ ("ocaml", ocaml_presets)
    ∷ ("r", r_presets)
    ∷ ("d", d_presets)
    ∷ ("lua", lua_presets)
    ∷ ("perl", perl_presets)
    ∷ ("erl", erl_presets)
    ∷ ("lisp", lisp_presets)
    ∷ []
