-- ===== src/Docker/Calls.antt =====
-- The calls of docker that a reproducible command consists of, written out (main/src/docker.rs).
use Prim.Native.String.{◌++◌ as ◌<>◌}
use text.Mathlib.TextLemmas.{append_assoc}
use cargo_stylus.Common.{◌≡◌, refl, sym, ap, ◌∙◌, String, List, [], ◌∷◌}
use cargo_stylus.Docker.{Invocation, image_name, build_args, dockerfile, run_args}
use cargo_stylus.Docker.Steps.{build_call, run_call}

-- The image for a version of the tool and a toolchain
abbrev pub image_for : (version channel : String) → String
image_for version channel = "cargo-stylus-base-" <> (version <> ("-toolchain-" <> channel))

abbrev pub ask_for : (image : String) → Invocation
ask_for image = record { args = "images" ∷ image ∷ []; input = "" }

-- The lines of the Dockerfile: the base image of the version, with the toolchain as its default
abbrev pub dockerfile_lines : (version channel : String) → List String
dockerfile_lines version channel =
    "ARG BUILD_PLATFORM=linux/amd64"
    ∷ ("FROM --platform=${BUILD_PLATFORM} offchainlabs/cargo-stylus-base:"
        <> (version <> " AS base"))
    ∷ ("RUN rustup toolchain install " <> (channel <> "-x86_64-unknown-linux-gnu"))
    ∷ ("RUN rustup default " <> (channel <> "-x86_64-unknown-linux-gnu"))
    ∷ "RUN rustup target add wasm32-unknown-unknown"
    ∷ ("RUN rustup component add rust-src --toolchain " <> (channel <> "-x86_64-unknown-linux-gnu"))
    ∷ []

-- The lines, each but the first behind an indentation, and the last one is ended.
abbrev pub indented : List String → String
indented [] = ""
indented (l ∷ []) = l <> "\n        "
indented (l ∷ m ∷ rest) = l <> ("\n            " <> indented (m ∷ rest))

-- `docker build`, with the Dockerfile on its input
abbrev pub build_with : (version channel : String) → Invocation
build_with version channel = record {
  args = "build" ∷ "-t" ∷ image_for version channel ∷ "." ∷ "-f-" ∷ [];
  input = indented (dockerfile_lines version channel);
}

-- `docker run` of the command in the image, with the directory mounted and the current one
abbrev pub run_in : (dir version channel : String) → (command : List String) → Invocation
run_in dir version channel command = record {
  args =
      "run"
      ∷ "--network"
      ∷ "host"
      ∷ "-w"
      ∷ "/source"
      ∷ "-v"
      ∷ (dir <> ":/source")
      ∷ image_for version channel
      ∷ command;
  input = "";
}

-- Three texts in front of a fourth
join : (a b c x : String) → a <> (b <> (c <> x)) ≡ (a <> (b <> c)) <> x
join a b c x = ap (λ t. a <> t) (sym (append_assoc b c x)) ∙ sym (append_assoc a (b <> c) x)

from_lines :
    (x : String)
    → "ARG BUILD_PLATFORM=linux/amd64"
        <> ("\n            "
            <> ("FROM --platform=${BUILD_PLATFORM} offchainlabs/cargo-stylus-base:" <> x))
      ≡ "ARG BUILD_PLATFORM=linux/amd64\n            FROM --platform=${BUILD_PLATFORM} offchainlabs/cargo-stylus-base:"
        <> x
from_lines x =
    join "ARG BUILD_PLATFORM=linux/amd64" "\n            "
      "FROM --platform=${BUILD_PLATFORM} offchainlabs/cargo-stylus-base:" x

install_lines :
    (x : String)
    → " AS base" <> ("\n            " <> ("RUN rustup toolchain install " <> x))
      ≡ " AS base\n            RUN rustup toolchain install " <> x
install_lines x = join " AS base" "\n            " "RUN rustup toolchain install " x

default_lines :
    (x : String)
    → "-x86_64-unknown-linux-gnu" <> ("\n            " <> ("RUN rustup default " <> x))
      ≡ "-x86_64-unknown-linux-gnu\n" <> ("            RUN rustup default " <> x)
default_lines x =
    join "-x86_64-unknown-linux-gnu" "\n            " "RUN rustup default " x
    ∙ append_assoc "-x86_64-unknown-linux-gnu\n" "            RUN rustup default " x

target_lines :
    (x : String)
    → "-x86_64-unknown-linux-gnu"
        <> ("\n            "
            <> ("RUN rustup target add wasm32-unknown-unknown"
                <> ("\n            " <> ("RUN rustup component add rust-src --toolchain " <> x))))
      ≡ "-x86_64-unknown-linux-gnu\n"
        <> ("            RUN rustup target add wasm32-unknown-unknown\n            RUN rustup component add rust-src --toolchain "
            <> x)
target_lines x =
    join "-x86_64-unknown-linux-gnu" "\n            " "RUN rustup target add wasm32-unknown-unknown"
      ("\n            " <> ("RUN rustup component add rust-src --toolchain " <> x))
    ∙ join
        ("-x86_64-unknown-linux-gnu"
          <> ("\n            " <> "RUN rustup target add wasm32-unknown-unknown"))
        "\n            " "RUN rustup component add rust-src --toolchain " x
    ∙ append_assoc "-x86_64-unknown-linux-gnu\n"
        "            RUN rustup target add wasm32-unknown-unknown\n            RUN rustup component add rust-src --toolchain "
        x

last_line :
    "-x86_64-unknown-linux-gnu" <> "\n        " ≡ "-x86_64-unknown-linux-gnu\n" <> "        "
last_line = refl

dockerfile-indented :
    (version channel : String)
    → dockerfile version channel ≡ indented (dockerfile_lines version channel)
unfolding dockerfile
dockerfile-indented version channel =
    simp (append_assoc, from_lines, install_lines, default_lines, target_lines, last_line)

pub build_call-build_with :
    (version channel : String) → build_call version channel ≡ build_with version channel
unfolding build_call build_args image_name
build_call-build_with version channel =
    ap
      (λ text. record {
        args = "build" ∷ "-t" ∷ image_for version channel ∷ "." ∷ "-f-" ∷ [];
        input = text;
      })
      (dockerfile-indented version channel)

pub run_call-run_in :
    (dir version channel : String) (command : List String)
    → run_call dir version channel command ≡ run_in dir version channel command
unfolding run_call run_args image_name
run_call-run_in dir version channel command = refl
