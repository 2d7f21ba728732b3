-- ===== src/Categories.antt =====
-- The categories of cpplint.py, the default filters, and the names of the C++ headers.
use dyod_ws.Base.{List, [], ◌∷◌}
use dyod_ws.Base.Text.{Str, txt}

-- `_ERROR_CATEGORIES`
unfoldable pub error_categories : List Str
unfolding txt
error_categories =
    txt "build/class"
    ∷ txt "build/c++11"
    ∷ txt "build/c++14"
    ∷ txt "build/c++tr1"
    ∷ txt "build/deprecated"
    ∷ txt "build/endif_comment"
    ∷ txt "build/explicit_make_pair"
    ∷ txt "build/forward_decl"
    ∷ txt "build/header_guard"
    ∷ txt "build/include"
    ∷ txt "build/include_alpha"
    ∷ txt "build/include_order"
    ∷ txt "build/include_what_you_use"
    ∷ txt "build/namespaces"
    ∷ txt "build/printf_format"
    ∷ txt "build/storage_class"
    ∷ txt "legal/copyright"
    ∷ txt "readability/alt_tokens"
    ∷ txt "readability/braces"
    ∷ txt "readability/casting"
    ∷ txt "readability/check"
    ∷ txt "readability/constructors"
    ∷ txt "readability/fn_size"
    ∷ txt "readability/inheritance"
    ∷ txt "readability/multiline_comment"
    ∷ txt "readability/multiline_string"
    ∷ txt "readability/namespace"
    ∷ txt "readability/nolint"
    ∷ txt "readability/nul"
    ∷ txt "readability/strings"
    ∷ txt "readability/todo"
    ∷ txt "readability/utf8"
    ∷ txt "runtime/arrays"
    ∷ txt "runtime/casting"
    ∷ txt "runtime/explicit"
    ∷ txt "runtime/int"
    ∷ txt "runtime/init"
    ∷ txt "runtime/invalid_increment"
    ∷ txt "runtime/member_string_references"
    ∷ txt "runtime/memset"
    ∷ txt "runtime/indentation_namespace"
    ∷ txt "runtime/operator"
    ∷ txt "runtime/printf"
    ∷ txt "runtime/printf_format"
    ∷ txt "runtime/references"
    ∷ txt "runtime/string"
    ∷ txt "runtime/threadsafe_fn"
    ∷ txt "runtime/vlog"
    ∷ txt "whitespace/blank_line"
    ∷ txt "whitespace/braces"
    ∷ txt "whitespace/comma"
    ∷ txt "whitespace/comments"
    ∷ txt "whitespace/empty_conditional_body"
    ∷ txt "whitespace/empty_if_body"
    ∷ txt "whitespace/empty_loop_body"
    ∷ txt "whitespace/end_of_line"
    ∷ txt "whitespace/ending_newline"
    ∷ txt "whitespace/forcolon"
    ∷ txt "whitespace/indent"
    ∷ txt "whitespace/line_length"
    ∷ txt "whitespace/newline"
    ∷ txt "whitespace/operators"
    ∷ txt "whitespace/parens"
    ∷ txt "whitespace/semicolon"
    ∷ txt "whitespace/tab"
    ∷ txt "whitespace/todo"
    ∷ []

-- `_LEGACY_ERROR_CATEGORIES`
unfoldable pub legacy_error_categories : List Str
unfolding txt
legacy_error_categories = txt "readability/streams" ∷ txt "readability/function" ∷ []

-- `_DEFAULT_C_SUPPRESSED_CATEGORIES`
unfoldable pub default_c_suppressed_categories : List Str
unfolding txt
default_c_suppressed_categories = txt "readability/casting" ∷ []

-- `_DEFAULT_KERNEL_SUPPRESSED_CATEGORIES`
unfoldable pub default_kernel_suppressed_categories : List Str
unfolding txt
default_kernel_suppressed_categories = txt "whitespace/tab" ∷ []

-- `_CPP_HEADERS`
unfoldable pub cpp_headers : List Str
unfolding txt
cpp_headers =
    txt "algobase.h"
    ∷ txt "algo.h"
    ∷ txt "alloc.h"
    ∷ txt "builtinbuf.h"
    ∷ txt "bvector.h"
    ∷ txt "complex.h"
    ∷ txt "defalloc.h"
    ∷ txt "deque.h"
    ∷ txt "editbuf.h"
    ∷ txt "fstream.h"
    ∷ txt "function.h"
    ∷ txt "hash_map"
    ∷ txt "hash_map.h"
    ∷ txt "hash_set"
    ∷ txt "hash_set.h"
    ∷ txt "hashtable.h"
    ∷ txt "heap.h"
    ∷ txt "indstream.h"
    ∷ txt "iomanip.h"
    ∷ txt "iostream.h"
    ∷ txt "istream.h"
    ∷ txt "iterator.h"
    ∷ txt "list.h"
    ∷ txt "map.h"
    ∷ txt "multimap.h"
    ∷ txt "multiset.h"
    ∷ txt "ostream.h"
    ∷ txt "pair.h"
    ∷ txt "parsestream.h"
    ∷ txt "pfstream.h"
    ∷ txt "procbuf.h"
    ∷ txt "pthread_alloc"
    ∷ txt "pthread_alloc.h"
    ∷ txt "rope"
    ∷ txt "rope.h"
    ∷ txt "ropeimpl.h"
    ∷ txt "set.h"
    ∷ txt "slist"
    ∷ txt "slist.h"
    ∷ txt "stack.h"
    ∷ txt "stdiostream.h"
    ∷ txt "stl_alloc.h"
    ∷ txt "stl_relops.h"
    ∷ txt "streambuf.h"
    ∷ txt "stream.h"
    ∷ txt "strfile.h"
    ∷ txt "strstream.h"
    ∷ txt "tempbuf.h"
    ∷ txt "tree.h"
    ∷ txt "type_traits.h"
    ∷ txt "vector.h"
    ∷ txt "algorithm"
    ∷ txt "array"
    ∷ txt "atomic"
    ∷ txt "bitset"
    ∷ txt "chrono"
    ∷ txt "codecvt"
    ∷ txt "complex"
    ∷ txt "condition_variable"
    ∷ txt "deque"
    ∷ txt "exception"
    ∷ txt "forward_list"
    ∷ txt "fstream"
    ∷ txt "functional"
    ∷ txt "future"
    ∷ txt "initializer_list"
    ∷ txt "iomanip"
    ∷ txt "ios"
    ∷ txt "iosfwd"
    ∷ txt "iostream"
    ∷ txt "istream"
    ∷ txt "iterator"
    ∷ txt "limits"
    ∷ txt "list"
    ∷ txt "locale"
    ∷ txt "map"
    ∷ txt "memory"
    ∷ txt "mutex"
    ∷ txt "new"
    ∷ txt "numeric"
    ∷ txt "optional"
    ∷ txt "ostream"
    ∷ txt "queue"
    ∷ txt "random"
    ∷ txt "ratio"
    ∷ txt "regex"
    ∷ txt "scoped_allocator"
    ∷ txt "set"
    ∷ txt "sstream"
    ∷ txt "stack"
    ∷ txt "stdexcept"
    ∷ txt "streambuf"
    ∷ txt "string"
    ∷ txt "strstream"
    ∷ txt "system_error"
    ∷ txt "thread"
    ∷ txt "tuple"
    ∷ txt "typeindex"
    ∷ txt "typeinfo"
    ∷ txt "type_traits"
    ∷ txt "unordered_map"
    ∷ txt "unordered_set"
    ∷ txt "utility"
    ∷ txt "valarray"
    ∷ txt "vector"
    ∷ txt "cassert"
    ∷ txt "ccomplex"
    ∷ txt "cctype"
    ∷ txt "cerrno"
    ∷ txt "cfenv"
    ∷ txt "cfloat"
    ∷ txt "cinttypes"
    ∷ txt "ciso646"
    ∷ txt "climits"
    ∷ txt "clocale"
    ∷ txt "cmath"
    ∷ txt "csetjmp"
    ∷ txt "csignal"
    ∷ txt "cstdalign"
    ∷ txt "cstdarg"
    ∷ txt "cstdbool"
    ∷ txt "cstddef"
    ∷ txt "cstdint"
    ∷ txt "cstdio"
    ∷ txt "cstdlib"
    ∷ txt "cstring"
    ∷ txt "ctgmath"
    ∷ txt "ctime"
    ∷ txt "cuchar"
    ∷ txt "cwchar"
    ∷ txt "cwctype"
    ∷ []

-- `_DEFAULT_FILTERS`
unfoldable pub default_filters : List Str
unfolding txt
default_filters = txt "-build/include_alpha" ∷ []
